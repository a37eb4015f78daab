-- ===== src/Rewards/Service/Frame.antt =====
-- What the calls of the rewards' service keep, a run of the service keeps.
use v3_keeper.Base.{ℕ, List, Text, Keeps, Keeps-raise, OnEnv, keeps_rules}
use v3_keeper.Rewards.{
  RewardVote, RewardVoteBody, RewardsCache, Search, index_fault, no_winner, winner,
}
use v3_keeper.Rewards.Fetch.{Http}
use v3_keeper.Rewards.Fetch.Frame.{HttpKept, votes-Keeps}
use v3_keeper.Rewards.Service.{
  Keeper, ProtocolConfig, submit_vote, submit_winner, process_votes, process_fetched,
  process_rewards,
}

-- The calls of the keeper contract keep `R`.
pub record KeeperKept {W : Type 0} (R : W → Type 0) (keeper : Keeper W) : Type 0 where
  pub can_update_rewards : Keeps R keeper.can_update_rewards
  pub get_rewards_nonce : Keeps R keeper.get_rewards_nonce
  pub update_rewards :
      (vote : RewardVoteBody) (signatures : Text) → Keeps R (keeper.update_rewards vote signatures)

module _ {W : Type 0} {R : W → Type 0} (http : Http W) (http_kept : HttpKept R http)
    (keeper : Keeper W) (keeper_kept : KeeperKept R keeper) (to_int : Text → ℕ) where
  submit_vote-Keeps :
      (vote : RewardVoteBody) (signatures : Text)
      → Keeps R (submit_vote http keeper to_int vote signatures)
  unfolding submit_vote
  submit_vote-Keeps vote signatures = search (keeps_rules, KeeperKept.update_rewards)

  submit_winner-Keeps :
      (config : ProtocolConfig) (found : Search)
      → Keeps (OnEnv {P = RewardsCache} R) (submit_winner http keeper to_int config found)
  unfolding submit_winner
  submit_winner-Keeps config index_fault = Keeps-raise _
  submit_winner-Keeps config no_winner = search keeps_rules
  submit_winner-Keeps config (winner votes body) = search (keeps_rules, submit_vote-Keeps) depth 20

  votes_processed-Keeps :
      (config : ProtocolConfig) (votes : List RewardVote)
      → Keeps (OnEnv {P = RewardsCache} R) (process_votes http keeper to_int config votes)
  unfolding process_votes
  votes_processed-Keeps config votes = search (keeps_rules, submit_winner-Keeps) depth 20

  fetched-Keeps :
      (config : ProtocolConfig)
      → Keeps (OnEnv {P = RewardsCache} R) (process_fetched http keeper to_int config)
  unfolding process_fetched
  fetched-Keeps config = search (keeps_rules, votes-Keeps, votes_processed-Keeps) depth 20

  -- What each call of the endpoints and of the contract keeps, a run keeps.
  pub process_rewards-Keeps :
      (config : ProtocolConfig)
      → Keeps (OnEnv {P = RewardsCache} R) (process_rewards http keeper to_int config)
  unfolding process_rewards
  process_rewards-Keeps config = search (keeps_rules, fetched-Keeps) depth 20
