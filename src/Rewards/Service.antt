-- ===== src/Rewards/Service.antt =====
-- `process_rewards` and `_submit_vote` of rewards/service.py. The keeper contract is a parameter.
pub mod Validity
pub mod Frame
mod Examples
use v3_keeper.Base.{
  ℕ, ◌==◌, length, filter, if◌then◌else◌, Bool, List, [], ◌∷◌, ◌++◌, Option, none, some, M, Sys,
  ◌>>=◌, ◌>>◌, pure, raise, ext, gets, modify, then_do, with_mem, Text, index_error,
}
use v3_keeper.Rewards.{
  RewardVote, RewardVoteBody, RewardsCache, update, clear, Search, index_fault, no_winner, winner,
  find_earliest_winner, signers,
}
use v3_keeper.Config.{Oracle}
use v3_keeper.Rewards.Fetch.{Http, fetch_reward_votes}

-- `update_rewards` returns the hash of the receipt's transaction, if there is a receipt.
pub record Keeper (W : Type 0) : Type 0 where
  pub can_update_rewards : M W Bool
  pub get_rewards_nonce : M W ℕ
  pub update_rewards : RewardVoteBody → Text → M W (Option Text)

-- The fields of `ProtocolConfig` that are used.
pub record ProtocolConfig : Type 0 where
  pub oracles : List Oracle
  pub rewards_threshold : ℕ

-- The signatures of the votes, one after another.
pub joined : List RewardVote → Text
joined [] = []
joined (v ∷ votes) = v.signature ++ joined votes

module _ {W : Type 0} (http : Http W) (keeper : Keeper W) (to_int : Text → ℕ) where
  -- The answer only decides what is logged.
  pub submit_vote : RewardVoteBody → Text → M W (Unit {0})
  submit_vote vote signatures = do tx_receipt ← keeper.update_rewards vote signatures; pure tt

  -- From the result of `_find_earliest_winner` on.
  pub submit_winner : ProtocolConfig → Search → M (Sys RewardsCache W) (Unit {0})
  unfolding submit_vote joined
  submit_winner protocol_config index_fault = raise index_error
  submit_winner protocol_config no_winner = pure tt
  submit_winner protocol_config (winner votes body) = do
    ext (submit_vote body (joined (signers to_int protocol_config.rewards_threshold votes body)))
    modify clear

  -- From the update of the cache on.
  pub process_votes : ProtocolConfig → List RewardVote → M (Sys RewardsCache W) (Unit {0})
  unfolding submit_winner
  process_votes protocol_config votes = do
    modify (update votes)
    cache ← gets (λ c. c)
    submit_winner protocol_config (find_earliest_winner cache protocol_config.rewards_threshold)

  -- From the votes' fetch on.
  pub process_fetched : ProtocolConfig → M (Sys RewardsCache W) (Unit {0})
  unfolding process_votes
  process_fetched protocol_config = do
    votes ← ext (fetch_reward_votes http protocol_config.oracles)
    if length votes == 0 then pure tt else do
      current_nonce ← ext keeper.get_rewards_nonce
      let current = filter (λ v. v.nonce == current_nonce) votes
      if length current == 0 then pure tt else process_votes protocol_config current

  unfoldable pub process_rewards : ProtocolConfig → M (Sys RewardsCache W) (Unit {0})
  unfolding process_fetched
  process_rewards protocol_config = do
    ready ← ext keeper.can_update_rewards
    if ready then process_fetched protocol_config else pure tt
