-- ===== src/Distributor.antt =====
-- distributor/service.py and typings.py: the votes for the root of the merkle distributor. HTTP and the
-- contract are parameters.
pub mod Order
pub mod Quorum
pub mod Run
pub mod Frame
mod Examples
use v3_keeper.Base.{
  ℕ, ltb, leb, ◌==◌, ◌≡◌, ◌↔◌, ◌&&◌, Bool, true, false, length, filter, if◌then◌else◌, List, [],
  ◌∷◌, map, Option, none, some, M, pure, raise, ◌>>=◌, ◌>>◌, then_do, gather, settle_task, Settled,
  value, failure, is_exception, runtime_error, key_error, index_error, Exn, arith, max, Eq, ◌≟◌,
  Text, text_beq, text_beq_iff,
}
use v3_keeper.Transaction.Rejection.{to_lower}
use v3_keeper.Config.{Oracle}
use v3_keeper.Votes.Counter.{most_common}
use v3_keeper.Votes.Sorting.{sort}
use v3_keeper.Votes.Signatures.{collect}

pub record DistributorRewardVoteBody : Type 0 where
  pub root : Text
  pub ipfs_hash : Text

pub record DistributorRewardVote : Type 0 where
  pub oracle_address : Text
  pub nonce : ℕ
  pub update_timestamp : ℕ
  pub signature : Text
  pub body : DistributorRewardVoteBody

abbrev pub body_beq : DistributorRewardVoteBody → DistributorRewardVoteBody → Bool
body_beq a b = text_beq a.root b.root && text_beq a.ipfs_hash b.ipfs_hash

pub body_beq_iff : (a b : DistributorRewardVoteBody) → (body_beq a b ≡ true) ↔ (a ≡ b)
body_beq_iff a b = ground (arith, text_beq_iff a.root b.root, text_beq_iff a.ipfs_hash b.ipfs_hash)

instance abbrev pub body_eq : Eq DistributorRewardVoteBody
body_eq = record { beq = body_beq; beq_iff = body_beq_iff }

-- The answer of an endpoint, `none` for a missing key.
pub record Answer : Type 0 where
  pub nonce : Option ℕ
  pub update_timestamp : Option ℕ
  pub signature : Option Text
  pub root : Option Text
  pub ipfs_hash : Option Text

-- The order of texts by their code points.
abbrev pub text_leb : Text → Text → Bool
text_leb [] t = true
text_leb (a ∷ s) [] = false
text_leb (a ∷ s) (b ∷ t) = if a == b then text_leb s t else ltb a b

abbrev pub by_lower : DistributorRewardVote → DistributorRewardVote → Bool
by_lower a b = text_leb (map to_lower a.oracle_address) (map to_lower b.oracle_address)

-- The votes whose signatures are submitted, in order.
unfoldable pub signers :
    ℕ → List DistributorRewardVote → DistributorRewardVoteBody → List DistributorRewardVote
signers rewards_min_oracles votes winner =
    collect (λ v. v.body ≟ winner) rewards_min_oracles 0 (sort by_lower votes)

-- The results that are votes; `None` and an `Exception` are skipped, any other exception goes on.
pub present : {A W : Type 0} → List (Settled (Option A)) → M W (List A)
present [] = pure []
present (value none ∷ results) = present results
present (value (some v) ∷ results) = do votes ← present results; pure (v ∷ votes)
present (failure e ∷ results) = if is_exception e then present results else raise e

pub max_nonce : List DistributorRewardVote → ℕ
max_nonce [] = 0
max_nonce (v ∷ votes) = max v.nonce (max_nonce votes)

abbrev pub first? : List DistributorRewardVote → Option DistributorRewardVote
first? [] = none
first? (v ∷ votes) = some v

-- The vote of an oracle, of the votes of its endpoints.
unfoldable pub newest : List DistributorRewardVote → Option DistributorRewardVote
unfolding max_nonce
newest votes = first? (filter (λ v. v.nonce == max_nonce votes) votes)

module _ {W : Type 0} (fetch : Text → M W (Option Answer)) where
  pub read_vote : Text → Answer → M W (Option DistributorRewardVote)
  read_vote address answer =
      go answer.nonce answer.signature answer.root answer.ipfs_hash answer.update_timestamp
    where
      go :
          Option ℕ
          → Option Text
          → Option Text
          → Option Text
          → Option ℕ
          → M W (Option DistributorRewardVote)
      go (some nonce) (some signature) (some root) (some hash) none = raise key_error
      go (some nonce) (some signature) (some root) (some hash) (some ts) = pure (
          some (record {
            oracle_address = address;
            nonce = nonce;
            update_timestamp = ts;
            signature = signature;
            body = record { root = root; ipfs_hash = hash };
          }))
      go _ _ _ _ _ = raise (runtime_error "Invalid response from endpoint")

  pub fetch_vote_from_endpoint : Oracle → Text → M W (Option DistributorRewardVote)
  unfolding read_vote
  fetch_vote_from_endpoint oracle endpoint = do
    answer ← fetch endpoint
    elim answer [ none ↦ pure none | some a ↦ read_vote oracle.address a ]

  pub fetch_vote_from_oracle : Oracle → M W (Option DistributorRewardVote)
  unfolding fetch_vote_from_endpoint present newest
  fetch_vote_from_oracle oracle = do
    results ←
        gather (λ endpoint. settle_task (fetch_vote_from_endpoint oracle endpoint)) oracle.endpoints
    votes ← present results
    pure (newest votes)

  unfoldable pub fetch_distributor_reward_votes : List Oracle → M W (List DistributorRewardVote)
  unfolding fetch_vote_from_oracle present
  fetch_distributor_reward_votes oracles = do
    results ← gather (λ oracle. settle_task (fetch_vote_from_oracle oracle)) oracles
    present results

-- The contract of the merkle distributor; `set_rewards_root` returns the hash of the receipt's transaction.
pub record Distributor (W : Type 0) : Type 0 where
  pub nonce : M W ℕ
  pub next_update_timestamp : M W ℕ
  pub rewards_min_oracles : M W ℕ
  pub rewards_root : M W Text
  pub set_rewards_root : DistributorRewardVoteBody → List Text → M W (Option Text)

module _ {W : Type 0} (fetch : Text → M W (Option Answer)) (contract : Distributor W) where
  -- The answer only decides what is logged.
  pub submit_vote : DistributorRewardVoteBody → List Text → M W (Unit {0})
  submit_vote vote signatures = do tx_receipt ← contract.set_rewards_root vote signatures; pure tt

  -- From the count on.
  pub submit_winner :
      List DistributorRewardVote → Option (DistributorRewardVoteBody × ℕ) → M W (Unit {0})
  unfolding submit_vote signers
  submit_winner votes none = raise index_error
  submit_winner votes (some (winner, winner_vote_count)) = do
    rewards_min_oracles ← contract.rewards_min_oracles
    if ltb winner_vote_count rewards_min_oracles then pure tt else do
      root ← contract.rewards_root
      if text_beq winner.root root
          then pure tt
          else submit_vote winner
              (map (λ v. v.signature) (signers rewards_min_oracles votes winner))

  -- The votes of the current nonce.
  pub process_current : List DistributorRewardVote → M W (Unit {0})
  unfolding submit_winner
  process_current votes = do
    next_update_timestamp ← contract.next_update_timestamp
    let later = filter (λ v. ltb next_update_timestamp v.update_timestamp) votes
    if length later == 0
        then pure tt
        else submit_winner later (most_common (map (λ v. v.body) later))

  unfoldable pub process_distributor_rewards : List Oracle → M W (Unit {0})
  unfolding process_current
  process_distributor_rewards oracles = do
    votes ← fetch_distributor_reward_votes fetch oracles
    if length votes == 0 then pure tt else do
      current_nonce ← contract.nonce
      let current = filter (λ v. v.nonce == current_nonce) votes
      if length current == 0 then pure tt else process_current current
