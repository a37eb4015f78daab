-- ===== src/Distributor/Run.antt =====
-- When a run of `process_distributor_rewards` submits nothing.
use v3_keeper.Base.{
  ℕ, ◌<◌, ◌≡◌, ◌≢◌, refl, ltb, ◌==◌, true, false, List, [], ◌∷◌, Option, some, length, filter,
  length-filter-le, arith, done, M, Text,
}
use v3_keeper.Votes.Counter.{most_common}
use v3_keeper.Votes.Counter.Laws.{count, most_common-count, most_common-cons}
use v3_keeper.Config.{Oracle}
use v3_keeper.Distributor.{
  DistributorRewardVote, DistributorRewardVoteBody, body_eq, Answer, Distributor,
  fetch_distributor_reward_votes, submit_winner, process_current, process_distributor_rewards,
}
use v3_keeper.Distributor.Quorum.{bodies}

-- The votes of a nonce that are later than a timestamp.
abbrev pub candidates : ℕ → ℕ → List DistributorRewardVote → List DistributorRewardVote
candidates nonce ts votes =
    filter (λ v. ltb ts v.update_timestamp) (filter (λ v. v.nonce == nonce) votes)

winner_found :
    (votes : List DistributorRewardVote)
    → length votes ≢ 0
    → (w : DistributorRewardVoteBody × ℕ) × (most_common (bodies votes) ≡ some w)
winner_found [] h = absurd (h refl)
winner_found (v ∷ votes) h = most_common-cons v.body (bodies votes)

module _ {W : Type 0} (fetch : Text → M W (Option Answer)) (contract : Distributor W) where
  -- If there are votes of the current nonce that are later than the next update timestamp, and no body
  -- has as many of them as the contract requires, a run only reads: nothing is submitted.
  pub process_distributor_rewards_unsubmitted :
      (oracles : List Oracle) (votes : List DistributorRewardVote) (nonce ts min : ℕ)
      (w v x y z : W)
      → fetch_distributor_reward_votes fetch oracles w ≡ done votes v
      → contract.nonce v ≡ done nonce x
      → contract.next_update_timestamp x ≡ done ts y
      → contract.rewards_min_oracles y ≡ done min z
      → length (candidates nonce ts votes) ≢ 0
      → ((body : DistributorRewardVoteBody) → count body (bodies (candidates nonce ts votes)) < min)
      → process_distributor_rewards fetch contract oracles w ≡ done tt z
  unfolding process_distributor_rewards process_current submit_winner
  process_distributor_rewards_unsubmitted oracles votes nonce ts min w v x y z fetched read_nonce
        read_ts read_min there below =
      let current = filter (λ v. v.nonce == nonce) votes in
      let shorter = length-filter-le (λ v. ltb ts v.update_timestamp) current in
      let short = length-filter-le (λ v. v.nonce == nonce) votes in
      let some_votes : (length votes == 0) ≡ false = ground (arith, shorter, short) in
      let some_current : (length current == 0) ≡ false = ground (arith, shorter) in
      let some_later : (length (candidates nonce ts votes) == 0) ≡ false = ground arith in
      let ((winner, n), found) = winner_found (candidates nonce ts votes) there in
      let (own, max) = most_common-count (bodies (candidates nonce ts votes)) winner n found in
      let fails : ltb n min ≡ true = ground (arith, own, below winner) in
      rw
        (fetched, some_votes, read_nonce, some_current, read_ts, some_later, found, read_min, fails)
        refl
