-- ===== src/Votes/Sorting.antt =====
-- `sorted(votes, key=...)`, Python's stable sort, as insertion from the right: an element goes before the
-- first one that it may stand before, so that elements of equal keys keep their order.
pub mod Laws
use v3_keeper.Base.{Bool, if◌then◌else◌, List, [], ◌∷◌}

module _ {A : Type 0} (le : A → A → Bool) where
  pub insert_sorted : A → List A → List A
  insert_sorted x [] = x ∷ []
  insert_sorted x (y ∷ ys) = if le x y then x ∷ y ∷ ys else y ∷ insert_sorted x ys

  unfoldable pub sort : List A → List A
  unfolding insert_sorted
  sort [] = []
  sort (x ∷ xs) = insert_sorted x (sort xs)
