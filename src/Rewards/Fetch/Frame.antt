-- ===== src/Rewards/Fetch/Frame.antt =====
-- What the calls of the endpoints keep, the fetch of the votes keeps.
use v3_keeper.Base.{
  ℕ, List, [], ◌∷◌, Option, none, some, Text, is_exception, Settled, value, failure, Keeps,
  Keeps-then, Keeps-pure, Keeps-raise, Keeps-if, keeps_rules,
}
use v3_keeper.Config.{Oracle}
use v3_keeper.Rewards.Fetch.{
  Http, Answer, successes, read_vote, fetch_vote_from_endpoint, fetch_vote_from_oracle,
  fetch_reward_votes,
}

pub successes-Keeps :
    {A W : Type 0} {R : W → Type 0} (results : List (Settled A)) → Keeps R (successes results)
unfolding successes
successes-Keeps [] = Keeps-pure []
successes-Keeps {A} {W} (value v ∷ results) =
    Keeps-then (successes results) _ (successes-Keeps results) (λ votes. Keeps-pure (v ∷ votes))
successes-Keeps (failure e ∷ results) =
    Keeps-if (is_exception e) _ _ (successes-Keeps results) (Keeps-raise e)

-- The calls of the endpoints keep `R`.
pub record HttpKept {W : Type 0} (R : W → Type 0) (http : Http W) : Type 0 where
  pub fetch : (url : Text) → Keeps R (http.fetch url)

module _ {W : Type 0} {R : W → Type 0} (http : Http W) (http_kept : HttpKept R http) where
  fields-Keeps :
      (address : Text) (n ts : Option ℕ) (sig root hash : Option Text) (rate : Option ℕ)
      → Keeps R (
          read_vote http address (record {
            nonce = n;
            update_timestamp = ts;
            signature = sig;
            root = root;
            ipfs_hash = hash;
            avg_reward_per_second = rate;
          }))
  unfolding read_vote
  fields-Keeps address none ts sig root hash rate = Keeps-raise _
  fields-Keeps address (some n) none sig root hash rate = Keeps-raise _
  fields-Keeps address (some n) (some ts) none root hash rate = Keeps-raise _
  fields-Keeps address (some n) (some ts) (some sig) none hash rate = Keeps-raise _
  fields-Keeps address (some n) (some ts) (some sig) (some root) none rate = Keeps-raise _
  fields-Keeps address (some n) (some ts) (some sig) (some root) (some hash) none = Keeps-raise _
  fields-Keeps address (some n) (some ts) (some sig) (some root) (some hash) (some rate) =
      search keeps_rules depth 20

  read_vote-Keeps : (address : Text) (a : Answer) → Keeps R (read_vote http address a)
  read_vote-Keeps address a =
      fields-Keeps address a.nonce a.update_timestamp a.signature a.root a.ipfs_hash
        a.avg_reward_per_second

  endpoint-Keeps :
      (oracle : Oracle) (endpoint : Text) → Keeps R (fetch_vote_from_endpoint http oracle endpoint)
  unfolding fetch_vote_from_endpoint
  endpoint-Keeps oracle endpoint = search (keeps_rules, HttpKept.fetch, read_vote-Keeps) depth 20

  oracle-Keeps : (oracle : Oracle) → Keeps R (fetch_vote_from_oracle http oracle)
  unfolding fetch_vote_from_oracle
  oracle-Keeps oracle = search (keeps_rules, endpoint-Keeps, successes-Keeps) depth 20

  pub votes-Keeps : (oracles : List Oracle) → Keeps R (fetch_reward_votes http oracles)
  unfolding fetch_reward_votes
  votes-Keeps oracles = search (keeps_rules, oracle-Keeps, successes-Keeps) depth 20
