-- ===== src/Votes/Counter.antt =====
-- `Counter(values).most_common(1)[0]`: the counts in the order of first appearance, and the first entry
-- with the highest count.
pub mod Laws
use v3_keeper.Base.{ℕ, ◌+◌, ltb, Bool, if◌then◌else◌, List, [], ◌∷◌, Option, none, some, Eq, ◌≟◌}

module _ {A : Type 0} ⦃e : Eq A⦄ where
  pub count_up : A → List (A × ℕ) → List (A × ℕ)
  count_up x [] = (x, 1) ∷ []
  count_up x ((y, n) ∷ m) = if x ≟ y then (y, n + 1) ∷ m else (y, n) ∷ count_up x m

  pub counter_onto : List (A × ℕ) → List A → List (A × ℕ)
  counter_onto m [] = m
  counter_onto m (x ∷ xs) = counter_onto (count_up x m) xs

-- The first of the best entries; `c` is the best so far.
pub best {ℓ} : {A : Type ℓ} → A × ℕ → List (A × ℕ) → A × ℕ
best c [] = c
best c (d ∷ m) = best (if ltb c.1 d.1 then d else c) m

-- `none` where `[0]` raises `IndexError`.
pub first_best {ℓ} : {A : Type ℓ} → List (A × ℕ) → Option (A × ℕ)
first_best [] = none
first_best (c ∷ m) = some (best c m)

unfoldable pub most_common : {A : Type 0} ⦃e : Eq A⦄ → List A → Option (A × ℕ)
unfolding count_up counter_onto best first_best
most_common xs = first_best (counter_onto [] xs)
