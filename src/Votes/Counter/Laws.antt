-- ===== src/Votes/Counter/Laws.antt =====
-- The winner of a count occurs as often as it says, and no value occurs more often.
use v3_keeper.Base.{
  ℕ, ◌+◌, ◌≤◌, ◌≡◌, refl, false, ltb, if◌then◌else◌, List, [], ◌∷◌, some, All, arith, subst,
  Bool-cases, inl, inr, Eq, ◌≟◌, ≟_refl, All-zip, ≟_sym,
}
use mathlib.Core.Option.{some-injective}
use v3_keeper.Votes.Counter.{count_up, counter_onto, best, first_best, most_common}

module _ {A : Type 0} ⦃e : Eq A⦄ where
  -- How often a value occurs.
  abbrev pub count : A → List A → ℕ
  count a [] = 0
  count a (x ∷ xs) = (if a ≟ x then 1 else 0) + count a xs

  abbrev tally : A → List (A × ℕ) → ℕ
  tally a [] = 0
  tally a ((b, n) ∷ m) = if a ≟ b then n else tally a m

  abbrev Distinct : List (A × ℕ) → Type 0
  Distinct [] = Unit
  Distinct ((b, n) ∷ m) = All (λ d. (b ≟ d.0) ≡ false) m × Distinct m

  tally-count_up :
      (a x : A) (m : List (A × ℕ)) → tally a (count_up x m) ≡ (if a ≟ x then 1 else 0) + tally a m
  unfolding count_up
  tally-count_up a x [] = ground arith
  tally-count_up a x ((b, n) ∷ m) =
      ground (arith, e.beq_iff x b, e.beq_iff a x, e.beq_iff a b, tally-count_up a x m)

  tally-counter_onto :
      (a : A) (m : List (A × ℕ)) (xs : List A)
      → tally a (counter_onto m xs) ≡ tally a m + count a xs
  unfolding counter_onto
  tally-counter_onto a m [] = omega arith
  tally-counter_onto a m (x ∷ xs) =
      omega (arith, tally-counter_onto a (count_up x m) xs, tally-count_up a x m)

  count_up-fresh :
      (b x : A) (m : List (A × ℕ))
      → (b ≟ x) ≡ false
      → All (λ d. (b ≟ d.0) ≡ false) m
      → All (λ d. (b ≟ d.0) ≡ false) (count_up x m)
  unfolding count_up
  count_up-fresh b x [] h k = (h, tt)
  count_up-fresh b x ((c, n) ∷ m) h (kc, k) = elim (Bool-cases (x ≟ c)) [
    | inl p ↦ rw p (kc, k)
    | inr p ↦ rw p (kc, count_up-fresh b x m h k)
  ]

  count_up-Distinct : (x : A) (m : List (A × ℕ)) → Distinct m → Distinct (count_up x m)
  unfolding count_up
  count_up-Distinct x [] h = (tt, tt)
  count_up-Distinct x ((b, n) ∷ m) (fresh, h) = elim (Bool-cases (x ≟ b)) [
    | inl p ↦ rw p (fresh, h)
    | inr p ↦ rw p (count_up-fresh b x m (≟_sym x b p) fresh, count_up-Distinct x m h)
  ]

  counter_onto-Distinct :
      (m : List (A × ℕ)) (xs : List A) → Distinct m → Distinct (counter_onto m xs)
  unfolding counter_onto
  counter_onto-Distinct m [] h = h
  counter_onto-Distinct m (x ∷ xs) h =
      counter_onto-Distinct (count_up x m) xs (count_up-Distinct x m h)

  -- In a list of distinct values each entry holds its own tally.
  IsTally : List (A × ℕ) → A × ℕ → Type 0
  IsTally m d = d.1 ≡ tally d.0 m

  Distinct-IsTally : (m : List (A × ℕ)) → Distinct m → All (IsTally m) m
  unfolding IsTally
  Distinct-IsTally [] h = tt
  Distinct-IsTally ((b, n) ∷ m) (fresh, h) = (
    rw (≟_refl b) refl,
    All-zip (λ d. (b ≟ d.0) ≡ false) (IsTally m) (IsTally ((b, n) ∷ m)) m
        (λ d differ same. rw (≟_sym b d.0 differ) same) fresh (Distinct-IsTally m h),
  )

  tally-le : (a : A) (n : ℕ) (m : List (A × ℕ)) → All (λ d. d.1 ≤ n) m → tally a m ≤ n
  tally-le a n [] h = omega arith
  tally-le a n ((b, k) ∷ m) (hb, h) = ground (arith, tally-le a n m h)

module _ {A : Type 0} where
  best-among : (P : A × ℕ → Type 0) (c : A × ℕ) (m : List (A × ℕ)) → P c → All P m → P (best c m)
  unfolding best
  best-among P c [] hc h = hc
  best-among P c (d ∷ m) hc (hd, h) = elim (Bool-cases (ltb c.1 d.1)) [
    | inl up ↦ rw up (best-among P d m hd h)
    | inr stay ↦ rw stay (best-among P c m hc h)
  ]

  best-lower : (n : ℕ) (c : A × ℕ) (m : List (A × ℕ)) → n ≤ c.1 → n ≤ (best c m).1
  unfolding best
  best-lower n c [] h = h
  best-lower n c (d ∷ m) h = best-lower n (if ltb c.1 d.1 then d else c) m (ground arith)

  best-max : (c : A × ℕ) (m : List (A × ℕ)) → All (λ d. d.1 ≤ (best c m).1) m
  unfolding best
  best-max c [] = tt
  best-max c (d ∷ m) =
      let next = if ltb c.1 d.1 then d else c in
      (best-lower d.1 next m (ground arith), best-max next m)

module _ {A : Type 0} ⦃e : Eq A⦄ where
  first_best-IsTally :
      (m : List (A × ℕ)) (w : A) (n : ℕ)
      → Distinct m
      → first_best m ≡ some (w, n)
      → (n ≡ tally w m) × ((a : A) → tally a m ≤ n)
  unfolding first_best IsTally
  first_best-IsTally [] w n d h = absurd (ground arith)
  first_best-IsTally (c ∷ m) w n d h =
      let (own, others) = Distinct-IsTally (c ∷ m) d in
      let same : best c m ≡ (w, n) = some-injective (best c m) (w, n) h in
      let won = best-among (IsTally (c ∷ m)) c m own others in
      let le = best-lower c.1 c m (omega arith) in
      let max = best-max c m in
      (
        subst (IsTally (c ∷ m)) same won,
        λ a. tally-le a n (c ∷ m) (subst (λ d. All (λ b. b.1 ≤ d.1) (c ∷ m)) same (le, max)),
      )

  -- The winner of `most_common` occurs exactly as often as its count says, and no value occurs more
  -- often.
  pub most_common-count :
      (xs : List A) (w : A) (n : ℕ)
      → most_common xs ≡ some (w, n)
      → (n ≡ count w xs) × ((a : A) → count a xs ≤ n)
  unfolding most_common
  most_common-count xs w n h =
      let (own, max) =
        first_best-IsTally (counter_onto [] xs) w n (counter_onto-Distinct [] xs tt) h in
      (
        omega (arith, own, tally-counter_onto w [] xs),
        λ a. omega (arith, max a, tally-counter_onto a [] xs),
      )

  first_best-counter_onto :
      (c : A × ℕ) (m : List (A × ℕ)) (xs : List A)
      → (w : A × ℕ) × (first_best (counter_onto (c ∷ m) xs) ≡ some w)
  unfolding first_best counter_onto count_up
  first_best-counter_onto c m [] = (best c m, refl)
  first_best-counter_onto (b, n) m (x ∷ xs) = elim (Bool-cases (x ≟ b)) [
    | inl p ↦ rw p (first_best-counter_onto (b, n + 1) m xs)
    | inr p ↦ rw p (first_best-counter_onto (b, n) (count_up x m) xs)
  ]

  -- Only the empty list has no winner.
  pub most_common-cons : (x : A) (xs : List A) → (w : A × ℕ) × (most_common (x ∷ xs) ≡ some w)
  unfolding most_common
  most_common-cons x xs = first_best-counter_onto (x, 1) [] xs
