-- ===== src/Distributor/Frame.antt =====
-- What the calls of the distributor's service keep, a run of the service keeps.
use v3_keeper.Base.{
  Keeps-then, ℕ, List, [], ◌∷◌, Option, none, some, Text, M, is_exception, Settled, value, failure,
  Keeps, Keeps-then, Keeps-pure, Keeps-raise, Keeps-if, keeps_rules,
}
use v3_keeper.Config.{Oracle}
use v3_keeper.Distributor.{
  DistributorRewardVote, DistributorRewardVoteBody, body_eq, Answer, Distributor, present,
  read_vote, fetch_vote_from_endpoint, fetch_vote_from_oracle, fetch_distributor_reward_votes,
  submit_vote, submit_winner, process_current, process_distributor_rewards,
}

-- The calls of the contract keep `R`.
pub record Kept {W : Type 0} (R : W → Type 0) (contract : Distributor W) : Type 0 where
  pub nonce : Keeps R contract.nonce
  pub next_update_timestamp : Keeps R contract.next_update_timestamp
  pub rewards_min_oracles : Keeps R contract.rewards_min_oracles
  pub rewards_root : Keeps R contract.rewards_root
  pub set_rewards_root :
      (vote : DistributorRewardVoteBody) (signatures : List Text)
      → Keeps R (contract.set_rewards_root vote signatures)

module _ {W : Type 0} {R : W → Type 0} (fetch : Text → M W (Option Answer))
    (contract : Distributor W) (fetches : (url : Text) → Keeps R (fetch url))
    (kept : Kept R contract) where
  present-Keeps : {A : Type 0} (results : List (Settled (Option A))) → Keeps R (present results)
  unfolding present
  present-Keeps {A} [] = search keeps_rules
  present-Keeps {A} (value none ∷ results) = present-Keeps results
  present-Keeps {A} (value (some v) ∷ results) = search (keeps_rules, present-Keeps results)
  present-Keeps {A} (failure e ∷ results) =
      Keeps-if (is_exception e) _ _ (present-Keeps results) (Keeps-raise e)

  -- An answer is read without the world.
  read_fields-Keeps :
      (address : Text) (n : Option ℕ) (sig root hash : Option Text) (ts : Option ℕ)
      → Keeps R (
          read_vote fetch address (record {
            nonce = n;
            update_timestamp = ts;
            signature = sig;
            root = root;
            ipfs_hash = hash;
          }))
  unfolding read_vote
  read_fields-Keeps address none sig root hash ts = Keeps-raise _
  read_fields-Keeps address (some n) none root hash ts = Keeps-raise _
  read_fields-Keeps address (some n) (some sig) none hash ts = Keeps-raise _
  read_fields-Keeps address (some n) (some sig) (some root) none ts = Keeps-raise _
  read_fields-Keeps address (some n) (some sig) (some root) (some hash) none = Keeps-raise _
  read_fields-Keeps address (some n) (some sig) (some root) (some hash) (some ts) = Keeps-pure _

  endpoint-Keeps :
      (oracle : Oracle) (endpoint : Text) → Keeps R (fetch_vote_from_endpoint fetch oracle endpoint)
  unfolding fetch_vote_from_endpoint
  endpoint-Keeps oracle endpoint = Keeps-then (fetch endpoint) _ (fetches endpoint) (elim [
    | none ↦ Keeps-pure none
    | some a ↦
        read_fields-Keeps oracle.address a.nonce a.signature a.root a.ipfs_hash a.update_timestamp
  ])

  votes-Keeps : (oracles : List Oracle) → Keeps R (fetch_distributor_reward_votes fetch oracles)
  unfolding fetch_distributor_reward_votes fetch_vote_from_oracle
  votes-Keeps oracles = search (keeps_rules, endpoint-Keeps, present-Keeps) depth 20

  submit_vote-Keeps :
      (vote : DistributorRewardVoteBody) (signatures : List Text)
      → Keeps R (submit_vote fetch contract vote signatures)
  unfolding submit_vote
  submit_vote-Keeps vote signatures = search (keeps_rules, Kept.set_rewards_root)

  submit_winner-Keeps :
      (votes : List DistributorRewardVote) (found : Option (DistributorRewardVoteBody × ℕ))
      → Keeps R (submit_winner fetch contract votes found)
  unfolding submit_winner
  submit_winner-Keeps votes none = Keeps-raise _
  submit_winner-Keeps votes (some (winner, count)) =
      search (keeps_rules, submit_vote-Keeps) depth 20

  process_current-Keeps :
      (votes : List DistributorRewardVote) → Keeps R (process_current fetch contract votes)
  unfolding process_current
  process_current-Keeps votes = search (keeps_rules, submit_winner-Keeps) depth 20

  -- What each call of the endpoints and of the contract keeps, a run keeps.
  pub process_distributor_rewards-Keeps :
      (oracles : List Oracle) → Keeps R (process_distributor_rewards fetch contract oracles)
  unfolding process_distributor_rewards
  process_distributor_rewards-Keeps oracles =
      search (keeps_rules, votes-Keeps, process_current-Keeps) depth 20
