-- ===== src/Distributor/Quorum.antt =====
-- What is submitted, and when nothing is.
use v3_keeper.Base.{
  ℕ, ◌≤◌, ◌≡◌, refl, Bool, true, List, [], ◌∷◌, map, some, All, All-map, length, filter, arith, ◌≟◌,
  ≟→eq,
}
use v3_keeper.Votes.Counter.{most_common}
use v3_keeper.Votes.Counter.Laws.{count, most_common-count}
use v3_keeper.Votes.Sorting.{sort}
use v3_keeper.Votes.Sorting.Laws.{IsSorted, All-sort, sort-IsSorted, length-filter-sort}
use v3_keeper.Votes.Signatures.Laws.{length-collect, All-collect, collect-IsSorted}
use v3_keeper.Distributor.{
  DistributorRewardVote, DistributorRewardVoteBody, body_eq, body_beq_iff, by_lower, signers,
}
use v3_keeper.Distributor.Order.{by_lower_total, by_lower_trans}

abbrev pub bodies : List DistributorRewardVote → List DistributorRewardVoteBody
bodies = map (λ v. v.body)

count-filter :
    (body : DistributorRewardVoteBody) (votes : List DistributorRewardVote)
    → length (filter (λ v. v.body ≟ body) votes) ≡ count body (bodies votes)
count-filter body [] = refl
count-filter body (v ∷ votes) =
    ground (arith, body_beq_iff v.body body, body_beq_iff body v.body, count-filter body votes)

All-tt : (votes : List DistributorRewardVote) → All {0, 0} (λ v. Unit) votes
All-tt [] = tt
All-tt (v ∷ votes) = (tt, All-tt votes)

-- If the winner of the count has at least as many votes as the contract requires, the signatures that
-- are submitted are that many, each of a vote for the winner, in the order of the lower-cased addresses.
pub signers-most_common :
    (rewards_min_oracles n : ℕ) (votes : List DistributorRewardVote)
    (winner : DistributorRewardVoteBody)
    → most_common (bodies votes) ≡ some (winner, n)
    → rewards_min_oracles ≤ n
    → (length (signers rewards_min_oracles votes winner) ≡ rewards_min_oracles)
      × All (λ v. v.body ≡ winner) (signers rewards_min_oracles votes winner)
      × IsSorted by_lower (signers rewards_min_oracles votes winner)
unfolding signers
signers-most_common rewards_min_oracles n votes winner found enough =
    let for_winner : DistributorRewardVote → Bool = λ v. v.body ≟ winner in
    let (own, max) = most_common-count (bodies votes) winner n found in
    (
      omega (
        arith,
        own,
        enough,
        length-collect for_winner rewards_min_oracles 0 (sort by_lower votes),
        length-filter-sort by_lower for_winner votes,
        count-filter winner votes,
      ),
      All-map (λ v. Unit × (for_winner v ≡ true)) (λ v. v.body ≡ winner) _
          (λ v q. ≟→eq v.body winner q.1)
          (All-collect for_winner (λ v. Unit) rewards_min_oracles 0 (sort by_lower votes)
            (All-sort by_lower (λ v. Unit) votes (All-tt votes))),
      collect-IsSorted for_winner by_lower rewards_min_oracles 0 (sort by_lower votes)
          (sort-IsSorted by_lower by_lower_total by_lower_trans votes),
    )
