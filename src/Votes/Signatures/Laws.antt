-- ===== src/Votes/Signatures/Laws.antt =====
-- How many signatures the loop collects, and of which votes.
use v3_keeper.Base.{
  ℕ, ◌+◌, ◌-◌, ◌≡◌, Bool, true, leb, List, [], ◌∷◌, All, arith, Bool-cases, inl, inr, filter,
  length, min,
}
use v3_keeper.Votes.Sorting.Laws.{IsSorted}
use v3_keeper.Votes.Signatures.{collect}

module _ {V : Type 0} (for_winner : V → Bool) where
  -- As many as there are votes for the winner, up to the threshold.
  pub length-collect :
      (threshold taken : ℕ) (votes : List V)
      → length (collect for_winner threshold taken votes)
        ≡ min (threshold - taken) (length (filter for_winner votes))
  unfolding collect
  length-collect threshold taken [] = omega arith
  length-collect threshold taken (v ∷ votes) =
      ground
        (arith, length-collect threshold (taken + 1) votes, length-collect threshold taken votes)

  -- Each is a vote for the winner, and of the list.
  pub All-collect :
      (P : V → Type 0) (threshold taken : ℕ) (votes : List V)
      → All P votes
      → All (λ v. P v × (for_winner v ≡ true)) (collect for_winner threshold taken votes)
  unfolding collect
  All-collect P threshold taken [] h = tt
  All-collect P threshold taken (v ∷ votes) (hv, h) = elim (Bool-cases (leb threshold taken)) [
    | inl stop ↦ rw stop tt
    | inr go ↦ elim (Bool-cases (for_winner v)) [
      | inl q ↦ rw (go, q) ((hv, q), All-collect P threshold (taken + 1) votes h)
      | inr q ↦ rw (go, q) (All-collect P threshold taken votes h)
    ]
  ]

  collect-All :
      (P : V → Type 0) (threshold taken : ℕ) (votes : List V)
      → All P votes
      → All P (collect for_winner threshold taken votes)
  unfolding collect
  collect-All P threshold taken [] h = tt
  collect-All P threshold taken (v ∷ votes) (hv, h) = elim (Bool-cases (leb threshold taken)) [
    | inl stop ↦ rw stop tt
    | inr go ↦ elim (Bool-cases (for_winner v)) [
      | inl q ↦ rw (go, q) (hv, collect-All P threshold (taken + 1) votes h)
      | inr q ↦ rw (go, q) (collect-All P threshold taken votes h)
    ]
  ]

  -- The order of the votes is kept.
  pub collect-IsSorted :
      (le : V → V → Bool) (threshold taken : ℕ) (votes : List V)
      → IsSorted le votes
      → IsSorted le (collect for_winner threshold taken votes)
  unfolding collect
  collect-IsSorted le threshold taken [] h = tt
  collect-IsSorted le threshold taken (v ∷ votes) (hv, h) =
      elim (Bool-cases (leb threshold taken)) [
        | inl stop ↦ rw stop tt
        | inr go ↦ elim (Bool-cases (for_winner v)) [
          | inl q ↦
              rw (go, q)
                (
                  collect-All (λ w. le v w ≡ true) threshold (taken + 1) votes hv,
                  collect-IsSorted le threshold (taken + 1) votes h,
                )
          | inr q ↦ rw (go, q) (collect-IsSorted le threshold taken votes h)
        ]
      ]
