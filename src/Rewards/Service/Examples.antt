-- ===== src/Rewards/Service/Examples.antt =====
-- A run of `process_rewards` with two oracles of one endpoint each, which vote for the same body. The world
-- counts the submissions.
use v3_keeper.Base.{ℕ, suc, ◌≡◌, refl, ◌∷◌, [], true, some, Sys, done, after, arith, All, Text}
use v3_keeper.Votes.Sorting.{sort}
use v3_keeper.Votes.Counter.{most_common}
use v3_keeper.Rewards.{find_earliest_winner, update, can_submit, clear, RewardVote, RewardsCache}
use v3_keeper.Config.{Oracle}
use v3_keeper.Rewards.Fetch.{Answer, Http, newest, fetch_reward_votes}
use v3_keeper.Rewards.Fetch.Newest.{Supersedes, newest-Supersedes}
use v3_keeper.Rewards.Service.{Keeper, ProtocolConfig, process_rewards}
use v3_keeper.Rewards.Service.Validity.{IsBounded, process_rewards-IsBounded}

abbrev answer : Answer
answer = record {
  nonce = some 5;
  update_timestamp = some 10;
  signature = some (7 ∷ []);
  root = some (1 ∷ []);
  ipfs_hash = some (2 ∷ []);
  avg_reward_per_second = some 4;
}

abbrev http : Http ℕ
http = record { fetch = λ url w. done (some answer) w; to_bytes = λ t. some t }

abbrev keeper : Keeper ℕ
keeper = record {
  can_update_rewards = λ w. done true w;
  get_rewards_nonce = λ w. done 5 w;
  update_rewards = λ body signatures w. done (some []) (suc w);
}

abbrev oracle_at : ℕ → Oracle
oracle_at a = record { address = a ∷ []; endpoints = (a ∷ []) ∷ [] }

abbrev config : ProtocolConfig
config = record { oracles = oracle_at 1 ∷ oracle_at 2 ∷ []; rewards_threshold = 2 }

abbrev to_int : Text → ℕ
to_int [] = 0
to_int (c ∷ t) = c

abbrev start : Sys RewardsCache ℕ
start = record { mem = record { data_by_ts = []; cache_size = 3 }; env = 0 }

-- The votes are submitted once and the cache is cleared.
submits_once : process_rewards http keeper to_int config start ≡ done tt (record start { env = 1 })
unfolding process_rewards fetch_reward_votes find_earliest_winner update sort most_common can_submit
    clear
submits_once = refl

process_rewards-IsBounded_example :
    IsBounded 3 (after (process_rewards http keeper to_int config start)).mem
process_rewards-IsBounded_example =
    process_rewards-IsBounded http keeper to_int 3 config start
      (record { valid = record { nodup = tt; groups = tt }; bound = omega arith; kept = refl })

abbrev vote_at : ℕ → ℕ → RewardVote
vote_at nonce ts = record {
  oracle_address = [];
  nonce = nonce;
  signature = [];
  body = record { update_timestamp = ts; root = []; ipfs_hash = []; avg_reward_per_second = 0 };
}

newest-Supersedes_example :
    (v : RewardVote) × (newest (vote_at 4 90 ∷ vote_at 5 20 ∷ vote_at 5 10 ∷ []) ≡ some v)
    × All (Supersedes v) (vote_at 4 90 ∷ vote_at 5 20 ∷ vote_at 5 10 ∷ [])
newest-Supersedes_example = newest-Supersedes (vote_at 4 90) (vote_at 5 20 ∷ vote_at 5 10 ∷ [])
