-- ===== src/Votes/Sorting/Laws.antt =====
-- Sorting orders the list, and keeps for each test the elements that pass it, in their order if the
-- test tells elements of equal keys together.
use v3_keeper.Base.{
  last?, some, ◌≡◌, refl, ◌∙◌, Bool, true, false, List, [], ◌∷◌, All, All-map, arith, Bool-cases,
  inl, inr, filter, length,
}
use v3_keeper.Votes.Sorting.{insert_sorted, sort}

last?-cons : {A : Type 0} (w : A) (xs : List A) → (v : A) × (last? (w ∷ xs) ≡ some v)
last?-cons w [] = (w, refl)
last?-cons w (x ∷ xs) = last?-cons x xs

module _ {A : Type 0} (le : A → A → Bool) where
  -- Each element may stand before all later ones.
  abbrev pub IsSorted : List A → Type 0
  IsSorted [] = Unit
  IsSorted (x ∷ xs) = All (λ y. le x y ≡ true) xs × IsSorted xs

  pub All-insert_sorted :
      (P : A → Type 0) (x : A) (xs : List A) → P x → All P xs → All P (insert_sorted le x xs)
  unfolding insert_sorted
  All-insert_sorted P x [] hx h = (hx, tt)
  All-insert_sorted P x (y ∷ ys) hx (hy, h) = elim (Bool-cases (le x y)) [
    | inl p ↦ rw p (hx, (hy, h))
    | inr p ↦ rw p (hy, All-insert_sorted P x ys hx h)
  ]

  pub All-sort : (P : A → Type 0) (xs : List A) → All P xs → All P (sort le xs)
  unfolding sort
  All-sort P [] h = tt
  All-sort P (x ∷ xs) (hx, h) = All-insert_sorted P x (sort le xs) hx (All-sort P xs h)

  All-insert_sorted_inv :
      (P : A → Type 0) (x : A) (xs : List A) → All P (insert_sorted le x xs) → P x × All P xs
  unfolding insert_sorted
  All-insert_sorted_inv P x [] = λ h. h
  All-insert_sorted_inv P x (y ∷ ys) = elim (Bool-cases (le x y)) [
    | inl p ↦ rw p (λ h. h)
    | inr p ↦ rw p (λ h. let (hx, hys) = All-insert_sorted_inv P x ys h.1 in (hx, (h.0, hys)))
  ]

  -- What holds of all of a sorted list holds of all of the list.
  pub sort-All : (P : A → Type 0) (xs : List A) → All P (sort le xs) → All P xs
  unfolding sort
  sort-All P [] h = tt
  sort-All P (x ∷ xs) h =
      let (hx, hxs) = All-insert_sorted_inv P x (sort le xs) h in (hx, sort-All P xs hxs)

  last-insert_sorted : (x : A) (ys : List A) → (v : A) × (last? (insert_sorted le x ys) ≡ some v)
  unfolding insert_sorted
  last-insert_sorted x [] = (x, refl)
  last-insert_sorted x (y ∷ ys) = elim (Bool-cases (le x y)) [
    | inl p ↦ rw p (last?-cons x (y ∷ ys))
    | inr p ↦ rw p (last?-cons y (insert_sorted le x ys))
  ]

  -- A sorted list that is not empty has a last element.
  pub last-sort : (x : A) (xs : List A) → (v : A) × (last? (sort le (x ∷ xs)) ≡ some v)
  unfolding sort
  last-sort x xs = last-insert_sorted x (sort le xs)

  filter-insert_sorted :
      (p : A → Bool) (x : A) (ys : List A)
      → length (filter p (insert_sorted le x ys)) ≡ length (filter p (x ∷ ys))
  unfolding insert_sorted
  filter-insert_sorted p x [] = refl
  filter-insert_sorted p x (y ∷ ys) = elim (Bool-cases (le x y)) [
    | inl q ↦ rw q refl
    | inr q ↦ rw q (ground (arith, filter-insert_sorted p x ys))
  ]

  -- Sorting keeps how many elements pass a test.
  pub length-filter-sort :
      (p : A → Bool) (xs : List A) → length (filter p (sort le xs)) ≡ length (filter p xs)
  unfolding sort
  length-filter-sort p [] = refl
  length-filter-sort p (x ∷ xs) =
      filter-insert_sorted p x (sort le xs) ∙ ground (arith, length-filter-sort p xs)

  module _ (total : (x y : A) → le x y ≡ false → le y x ≡ true)
      (trans : (x y z : A) → le x y ≡ true → le y z ≡ true → le x z ≡ true) where
    insert_sorted-IsSorted : (x : A) (xs : List A) → IsSorted xs → IsSorted (insert_sorted le x xs)
    unfolding insert_sorted
    insert_sorted-IsSorted x [] h = (tt, tt)
    insert_sorted-IsSorted x (y ∷ ys) (hy, h) = elim (Bool-cases (le x y)) [
      | inl p ↦ rw p (
        (p, All-map (λ z. le y z ≡ true) (λ z. le x z ≡ true) ys (λ z q. trans x y z p q) hy),
        (hy, h),
      )
      | inr p ↦ rw p (
        All-insert_sorted (λ z. le y z ≡ true) x ys (total x y p) hy,
        insert_sorted-IsSorted x ys h,
      )
    ]

    -- By a total order the result is sorted.
    pub sort-IsSorted : (xs : List A) → IsSorted (sort le xs)
    unfolding sort
    sort-IsSorted [] = tt
    sort-IsSorted (x ∷ xs) = insert_sorted-IsSorted x (sort le xs) (sort-IsSorted xs)
