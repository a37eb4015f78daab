-- ===== src/Base/Assoc.antt =====
-- A Python dictionary whose keys are compared by `==`, as an association list in insertion order.
use mathlib.Core.Path.{◌≡◌, refl, subst}
use mathlib.Core.Logic.{inl, inr}
use mathlib.Core.List.{List, [], ◌∷◌}
use mathlib.Core.Option.{Option, none, some}
use native.Mathlib.Omega.{arith}
use v3_keeper.Base.Tests.{if◌then◌else◌, Bool-cases}
use v3_keeper.Base.Lists.{All}
use v3_keeper.Base.Equality.{Eq, ◌≟◌, ≟→eq}

module _ {K V : Type 0} ⦃e : Eq K⦄ where
  -- `d.get(k)`
  abbrev pub get : K → List (K × V) → Option V
  get k [] = none
  get k ((j, v) ∷ m) = if k ≟ j then some v else get k m

  -- `d[k] = v`
  abbrev pub put : K → V → List (K × V) → List (K × V)
  put k v [] = (k, v) ∷ []
  put k v ((j, w) ∷ m) = if k ≟ j then (j, v) ∷ m else (j, w) ∷ put k v m

  pub get-put :
      (j k : K) (v : V) (m : List (K × V)) → get j (put k v m) ≡ (if j ≟ k then some v else get j m)
  get-put j k v [] = refl
  get-put j k v ((i, w) ∷ m) =
      ground (arith, e.beq_iff k i, e.beq_iff j i, e.beq_iff j k, get-put j k v m)

  pub All-put :
      (P : K × V → Type 0) (k : K) (v : V) (m : List (K × V))
      → P (k, v)
      → All P m
      → All P (put k v m)
  All-put P k v [] hv h = (hv, tt)
  All-put P k v ((j, w) ∷ m) hv (hj, h) = elim (Bool-cases (k ≟ j)) [
    | inl c ↦ rw c (subst (λ i. P (i, v)) (≟→eq k j c) hv, h)
    | inr c ↦ rw c (hj, All-put P k v m hv h)
  ]

  pub All-get :
      (P : K × V → Type 0) (k : K) (m : List (K × V)) {v : V}
      → All P m
      → get k m ≡ some v
      → P (k, v)
  All-get P k [] h g = absurd (ground arith)
  All-get P k ((j, w) ∷ m) (hj, h) g = elim (Bool-cases (k ≟ j)) [
    | inl c ↦ let same : (j, w) ≡ (k, _) = ground (arith, ≟→eq k j c) in subst P same hj
    | inr c ↦ All-get P k m h (ground arith)
  ]
