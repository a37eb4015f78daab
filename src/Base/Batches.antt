-- ===== src/Base/Batches.antt =====
-- `itertools.batched`.
use Prim.Native.Nat.{ℕ}
use mathlib.Core.Path.{◌≡◌, refl, ◌∙◌}
use mathlib.Core.Logic.{inl, inr}
use mathlib.Core.List.{List, [], ◌∷◌, ◌++◌, append_assoc}
use v3_keeper.Base.Tests.{leb, if◌then◌else◌, Bool-cases}
use v3_keeper.Base.Lists.{length}

-- The batches, with the one that is being filled.
unfoldable pub batched_onto {ℓ} : {A : Type ℓ} → ℕ → List A → List A → List (List A)
batched_onto n [] [] = []
batched_onto n (x ∷ batch) [] = (x ∷ batch) ∷ []
batched_onto n batch (x ∷ xs) =
    let full = batch ++ (x ∷ []) in
    let flushed = full ∷ batched_onto n [] xs in
    let filling = batched_onto n full xs in if leb n (length full) then flushed else filling

-- The batches in a row are the list.
abbrev pub concat {ℓ} : {A : Type ℓ} → List (List A) → List A
concat [] = []
concat (x ∷ xs) = x ++ concat xs

pub concat-batched_onto {ℓ} :
    {A : Type ℓ} (n : ℕ) (batch xs : List A) → concat (batched_onto n batch xs) ≡ batch ++ xs
unfolding batched_onto
concat-batched_onto n [] [] = refl
concat-batched_onto n (x ∷ batch) [] = refl
concat-batched_onto n batch (x ∷ xs) = elim (Bool-cases (leb n (length (batch ++ (x ∷ []))))) [
  | inl full ↦ rw (full, concat-batched_onto n [] xs) (append_assoc batch (x ∷ []) xs)
  | inr filling ↦
      rw filling (concat-batched_onto n (batch ++ (x ∷ [])) xs ∙ append_assoc batch (x ∷ []) xs)
]
