-- ===== src/Rewards/Fetch.antt =====
-- `_fetch_vote_from_endpoint`, `_fetch_vote_from_oracle` and `_fetch_reward_votes` of rewards/service.py.
pub mod Newest
pub mod Frame
use v3_keeper.Base.{
  or_raise, ℕ, zero, suc, ◌==◌, leb, max, length, filter, last?, if◌then◌else◌, Bool, List, [], ◌∷◌,
  Option, none, some, M, Exn, ◌>>=◌, ◌>>◌, pure, raise, then_do, gather, settle_task, Settled,
  value, failure, is_exception, runtime_error, index_error, value_error, Text,
}
use v3_keeper.Config.{Oracle}
use v3_keeper.Votes.Sorting.{sort}
use v3_keeper.Rewards.{RewardVote}

-- The answer of an endpoint, `none` for a missing key.
pub record Answer : Type 0 where
  pub nonce : Option ℕ
  pub update_timestamp : Option ℕ
  pub signature : Option Text
  pub root : Option Text
  pub ipfs_hash : Option Text
  pub avg_reward_per_second : Option ℕ

-- `aiohttp_fetch` of the endpoint's URL, `none` for an empty answer, and `Web3.to_bytes`, `none` where it
-- raises.
pub record Http (W : Type 0) : Type 0 where
  pub fetch : Text → M W (Option Answer)
  pub to_bytes : Text → Option Text

-- `isinstance(result, Exception)` skips a result, any other exception goes on.
unfoldable pub successes : {A W : Type 0} → List (Settled A) → M W (List A)
successes [] = pure []
successes (value v ∷ results) = do votes ← successes results; pure (v ∷ votes)
successes (failure e ∷ results) = if is_exception e then successes results else raise e

abbrev pub by_timestamp : RewardVote → RewardVote → Bool
by_timestamp a b = leb a.body.update_timestamp b.body.update_timestamp

pub max_nonce : List RewardVote → ℕ
max_nonce [] = 0
max_nonce (v ∷ votes) = max v.nonce (max_nonce votes)

-- The vote itself if there is one only, else the last one by timestamp.
abbrev pub first_or_last : List RewardVote → Option RewardVote
first_or_last (v ∷ []) = some v
first_or_last votes = last? (sort by_timestamp votes)

-- The vote that counts for an oracle, of the votes of its endpoints.
unfoldable pub newest : List RewardVote → Option RewardVote
unfolding max_nonce
newest votes = first_or_last (filter (λ v. v.nonce == max_nonce votes) votes)

module _ {W : Type 0} (http : Http W) where
  -- The check of the keys, and the vote.
  pub read_vote : Text → Answer → M W RewardVote
  read_vote address answer =
      go answer.nonce answer.update_timestamp answer.signature answer.root answer.ipfs_hash
        answer.avg_reward_per_second
    where
      go : Option ℕ → Option ℕ → Option Text → Option Text → Option Text → Option ℕ → M W RewardVote
      go (some nonce) (some ts) (some signature) (some root) (some hash) (some rate) = do
        bytes ← or_raise (value_error "Non-hexadecimal digit found") (http.to_bytes signature)
        pure (record {
          oracle_address = address;
          nonce = nonce;
          signature = bytes;
          body = record {
            update_timestamp = ts;
            root = root;
            ipfs_hash = hash;
            avg_reward_per_second = rate;
          };
        })
      go _ _ _ _ _ _ = raise (runtime_error "Invalid response from endpoint")

  pub fetch_vote_from_endpoint : Oracle → Text → M W RewardVote
  unfolding read_vote
  fetch_vote_from_endpoint oracle endpoint = do
    answer ← http.fetch endpoint
    found ← or_raise (runtime_error "Invalid response from endpoint") answer
    read_vote oracle.address found

  unfoldable pub fetch_vote_from_oracle : Oracle → M W RewardVote
  unfolding fetch_vote_from_endpoint successes newest
  fetch_vote_from_oracle oracle = do
    results ←
        gather (λ endpoint. settle_task (fetch_vote_from_endpoint oracle endpoint)) oracle.endpoints
    votes ← successes results
    if length votes == 0
        then raise (runtime_error "All endpoints are unavailable for oracle")
        else or_raise index_error (newest votes)

  unfoldable pub fetch_reward_votes : List Oracle → M W (List RewardVote)
  unfolding fetch_vote_from_oracle successes
  fetch_reward_votes oracles = do
    results ← gather (λ oracle. settle_task (fetch_vote_from_oracle oracle)) oracles
    successes results
