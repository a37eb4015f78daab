-- ===== src/Rewards/Submission.antt =====
-- The signatures that `process_rewards` submits for the answer of `_find_earliest_winner`.
use v3_keeper.Base.{
  ℕ, ◌≡◌, refl, Bool, true, false, List, [], ◌∷◌, All, All-map, length, filter, arith, ◌≟◌, ≟→eq,
  Text,
}
use v3_keeper.Votes.Counter.Laws.{count}
use v3_keeper.Votes.Sorting.{sort}
use v3_keeper.Votes.Sorting.Laws.{IsSorted, All-sort, sort-IsSorted, length-filter-sort}
use v3_keeper.Votes.Signatures.Laws.{length-collect, All-collect, collect-IsSorted}
use v3_keeper.Rewards.{
  RewardVote, RewardVoteBody, RewardsCache, body_eq, body_beq_iff, winner, find_earliest_winner,
  by_address, signers,
}
use v3_keeper.Rewards.Cache.{IsValid}
use v3_keeper.Rewards.Winner.{bodies, find_earliest_winner-NoQuorum}

count-filter :
    (body : RewardVoteBody) (votes : List RewardVote)
    → length (filter (λ v. v.body ≟ body) votes) ≡ count body (bodies votes)
count-filter body [] = refl
count-filter body (v ∷ votes) =
    ground (arith, body_beq_iff v.body body, body_beq_iff body v.body, count-filter body votes)

All-tt : (votes : List RewardVote) → All {0, 0} (λ v. Unit) votes
All-tt [] = tt
All-tt (v ∷ votes) = (tt, All-tt votes)

module _ (to_int : Text → ℕ) where
  by_address_total :
      (a b : RewardVote) → by_address to_int a b ≡ false → by_address to_int b a ≡ true
  by_address_total a b h = ground arith

  by_address_trans :
      (a b c : RewardVote)
      → by_address to_int a b ≡ true
      → by_address to_int b c ≡ true
      → by_address to_int a c ≡ true
  by_address_trans a b c h k = ground arith

  -- If a well-formed cache has a winner, the signatures that are submitted for it are as many as the
  -- threshold, each of a vote for the winning body, in the order of the oracles' addresses.
  pub signers-find_earliest_winner :
      (cache : RewardsCache) (threshold : ℕ) (votes : List RewardVote) (body : RewardVoteBody)
      → IsValid cache.data_by_ts
      → find_earliest_winner cache threshold ≡ winner votes body
      → (length (signers to_int threshold votes body) ≡ threshold)
        × All (λ v. v.body ≡ body) (signers to_int threshold votes body)
        × IsSorted (by_address to_int) (signers to_int threshold votes body)
  unfolding signers
  signers-find_earliest_winner cache threshold votes body h found =
      let (ts, at, quorum, older) =
        find_earliest_winner-NoQuorum cache threshold votes body h found in
      let le = by_address to_int in
      let for_winner : RewardVote → Bool = λ v. v.body ≟ body in
      (
        omega (
          arith,
          quorum,
          length-collect for_winner threshold 0 (sort le votes),
          length-filter-sort le for_winner votes,
          count-filter body votes,
        ),
        All-map (λ v. Unit × (for_winner v ≡ true)) (λ v. v.body ≡ body) _
            (λ v q. ≟→eq v.body body q.1)
            (All-collect for_winner (λ v. Unit) threshold 0 (sort le votes)
              (All-sort le (λ v. Unit) votes (All-tt votes))),
        collect-IsSorted for_winner le threshold 0 (sort le votes)
            (sort-IsSorted le by_address_total by_address_trans votes),
      )
