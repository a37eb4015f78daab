-- ===== src/Distributor/Examples.antt =====
-- Two oracles that vote for the same root, with a contract that requires two votes, or three.
use v3_keeper.Base.{ℕ, ◌≡◌, refl, List, [], ◌∷◌, Option, some, All, length, arith, M, done, Text}
use v3_keeper.Votes.Counter.{most_common}
use v3_keeper.Votes.Sorting.Laws.{IsSorted}
use v3_keeper.Config.{Oracle}
use v3_keeper.Distributor.{
  DistributorRewardVote, DistributorRewardVoteBody, body_eq, Answer, Distributor, newest, by_lower,
  signers, fetch_distributor_reward_votes, process_distributor_rewards,
}
use v3_keeper.Distributor.Quorum.{bodies, signers-most_common}
use v3_keeper.Distributor.Run.{process_distributor_rewards_unsubmitted}

abbrev answer : Answer
answer = record {
  nonce = some 5;
  update_timestamp = some 10;
  signature = some (7 ∷ []);
  root = some (1 ∷ []);
  ipfs_hash = some (2 ∷ []);
}

abbrev fetch : Text → M ℕ (Option Answer)
fetch endpoint w = done (some answer) w

abbrev contract : Distributor ℕ
contract = record {
  nonce = λ w. done 5 w;
  next_update_timestamp = λ w. done 8 w;
  rewards_min_oracles = λ w. done 3 w;
  rewards_root = λ w. done [] w;
  set_rewards_root = λ body signatures w. done (some []) w;
}

abbrev oracle_at : ℕ → Oracle
oracle_at a = record { address = a ∷ []; endpoints = (a ∷ []) ∷ [] }

abbrev root_body : DistributorRewardVoteBody
root_body = record { root = 1 ∷ []; ipfs_hash = 2 ∷ [] }

abbrev vote_of : ℕ → DistributorRewardVote
vote_of a = record {
  oracle_address = a ∷ [];
  nonce = 5;
  update_timestamp = 10;
  signature = 7 ∷ [];
  body = root_body;
}

abbrev votes : List DistributorRewardVote
votes = vote_of 2 ∷ vote_of 1 ∷ []

counted : most_common (bodies votes) ≡ some (root_body, 2)
unfolding most_common
counted = refl

signers-most_common_example :
    (length (signers 2 votes root_body) ≡ 2)
    × All (λ v. v.body ≡ root_body) (signers 2 votes root_body)
    × IsSorted by_lower (signers 2 votes root_body)
signers-most_common_example = signers-most_common 2 2 votes root_body counted (omega arith)

fetched : fetch_distributor_reward_votes fetch (oracle_at 2 ∷ oracle_at 1 ∷ []) 0 ≡ done votes 0
unfolding fetch_distributor_reward_votes newest
fetched = refl

process_distributor_rewards_unsubmitted_example :
    process_distributor_rewards fetch contract (oracle_at 2 ∷ oracle_at 1 ∷ []) 0 ≡ done tt 0
process_distributor_rewards_unsubmitted_example =
    process_distributor_rewards_unsubmitted fetch contract (oracle_at 2 ∷ oracle_at 1 ∷ []) votes 5
      8 3 0 0 0 0 0 fetched refl refl refl (λ h. absurd (omega (arith, h))) (λ body. ground arith)
