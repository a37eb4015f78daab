-- ===== src/Contracts/Wrappers/Safety.antt =====
-- The calls of the contracts keep the transaction manager sound.
use v3_keeper.Base.{
  ℕ, refl, List, concat, some, false, Text, M, Sys, ext, traverse, or_raise, value_error, Keeps,
  Keeps-then, Keeps-or_raise, Keeps-traverse, Keeps-pure,
}
use v3_keeper.Networks.{PriceNetworkConfig}
use v3_keeper.Distributor.{DistributorRewardVoteBody}
use v3_keeper.Transaction.Manager.{Manager, Node, Settings, transact, transact_locked, no_params}
use v3_keeper.Transaction.Manager.Soundness.{Sound, transact_locked-IsSound, read-IsSound}
use v3_keeper.Rewards.Service.Frame.{KeeperKept}
use v3_keeper.Ltv.Frame.{TrackerKept}
use v3_keeper.ForceExit.Execution.Frame.{ContractsKept}
use v3_keeper.ForceExit.Service.Frame.{RegistryKept}
use v3_keeper.Contracts.Wrappers.{
  ContractCall, set_rewards_root_call, sync_rate_call, Views, send_call, set_rewards_root,
  current_root, get_max_ltv_user, percent_of, liq_threshold, sync_rate, keeper_contract,
  merkle_distributor_contract, vault_user_ltv_tracker_contract, force_exit_contracts,
  strategy_contracts, price_feed_contracts,
}

module _ {V : Type 0} (views : Views V) (node : Node ContractCall V) (settings : Settings) where
  abbrev SoundState : Sys Manager V → Type 0
  SoundState = Sound node settings

  read-Keeps : {A : Type 0} (m : M V A) → Keeps SoundState (ext m)
  read-Keeps m = read-IsSound node settings m

  send_call-Keeps : (call : ContractCall) → Keeps SoundState (send_call views node settings call)
  unfolding send_call transact
  send_call-Keeps call =
      Keeps-then (transact_locked node settings call no_params false) _
        (transact_locked-IsSound node settings call no_params false
          (record { fee = refl; priority = refl }))
        (λ receipt. Keeps-pure _)

  sync_rate-Keeps :
      (config : PriceNetworkConfig) (account rate : ℕ)
      → Keeps SoundState (sync_rate views node settings config account rate)
  unfolding sync_rate transact
  sync_rate-Keeps config account rate =
      transact_locked-IsSound node settings
        (sync_rate_call config.target_chain config.target_address)
        (record no_params { sender = some account; amount = some rate }) false
        (record { fee = refl; priority = refl })

  root-Keeps : Keeps SoundState (current_root views node settings)
  unfolding current_root
  root-Keeps = Keeps-then _ _ (read-Keeps views.rewards_root) (λ root. Keeps-pure _)

  set_root-Keeps :
      (vote : DistributorRewardVoteBody) (signatures : List Text)
      → Keeps SoundState (set_rewards_root views node settings vote signatures)
  unfolding set_rewards_root
  set_root-Keeps vote signatures =
      Keeps-then
        (traverse (λ s. or_raise (value_error "invalid signature") (views.to_bytes s)) signatures) _
        (Keeps-traverse _ signatures (λ s. Keeps-or_raise _ (views.to_bytes s)))
        (λ bytes. send_call-Keeps (set_rewards_root_call vote.root vote.ipfs_hash (concat bytes)))

  user-Keeps : (vault : Text) → Keeps SoundState (get_max_ltv_user views node settings vault)
  unfolding get_max_ltv_user
  user-Keeps vault =
      Keeps-then _ _ (read-Keeps (views.vault_to_user vault))
        (λ user. Keeps-or_raise _ (views.to_checksum_address user))

  percent-Keeps : (read : M V Text) → Keeps SoundState (percent_of views node settings read)
  unfolding percent_of
  percent-Keeps read = Keeps-then _ _ (read-Keeps read) (λ bytes. Keeps-pure _)

  threshold-Keeps : Keeps SoundState (liq_threshold views node settings)
  unfolding liq_threshold
  threshold-Keeps =
      Keeps-then _ _ (read-Keeps views.liq_threshold_percent) (λ percent. Keeps-pure _)

  pub keeper_contract-Keeps : KeeperKept SoundState (keeper_contract views node settings)
  unfolding keeper_contract
  keeper_contract-Keeps = record {
    can_update_rewards = read-Keeps views.can_update_rewards;
    get_rewards_nonce = read-Keeps views.rewards_nonce;
    update_rewards = λ vote signatures. send_call-Keeps _;
  }

  pub merkle_distributor_contract-Keeps :
      v3_keeper.Distributor.Frame.Kept SoundState (merkle_distributor_contract views node settings)
  unfolding merkle_distributor_contract
  merkle_distributor_contract-Keeps = record {
    nonce = read-Keeps views.nonce;
    next_update_timestamp = read-Keeps views.next_rewards_root_update_timestamp;
    rewards_min_oracles = read-Keeps views.rewards_min_oracles;
    rewards_root = root-Keeps;
    set_rewards_root = set_root-Keeps;
  }

  pub tracker_contract-Keeps :
      TrackerKept SoundState (vault_user_ltv_tracker_contract views node settings)
  unfolding vault_user_ltv_tracker_contract
  tracker_contract-Keeps = record {
    get_vault_max_ltv = λ vault params. read-Keeps _;
    get_max_ltv_user = user-Keeps;
    update_vault_max_ltv_user = λ vault user params. send_call-Keeps _;
  }

  pub force_exit_contracts-Keeps :
      ContractsKept SoundState (force_exit_contracts views node settings)
  unfolding force_exit_contracts
  force_exit_contracts-Keeps = record {
    can_harvest = λ vault block_number. read-Keeps (views.can_harvest vault block_number);
    aggregate = λ calls block_number. read-Keeps (views.aggregate calls block_number);
    transact = λ calls. send_call-Keeps _;
  }

  pub strategy_contracts-Keeps : RegistryKept SoundState (strategy_contracts views node settings)
  unfolding strategy_contracts
  strategy_contracts-Keeps = record {
    borrow_ltv_percent = percent-Keeps views.borrow_ltv_percent;
    vault_ltv_percent = percent-Keeps views.vault_ltv_percent;
    liq_threshold_percent = threshold-Keeps;
    owner = λ proxy. read-Keeps (views.owner proxy);
  }

  pub price_feed_contracts-Keeps :
      (config : PriceNetworkConfig) (account : ℕ) (time : M V ℕ)
      → v3_keeper.Price.Frame.Kept SoundState
          (price_feed_contracts views node settings config account time)
  unfolding price_feed_contracts
  price_feed_contracts-Keeps config account time = record {
    latest_timestamp = read-Keeps views.latest_timestamp;
    time = read-Keeps time;
    quote_rate = read-Keeps (views.quote_rate_sync config.target_chain);
    sync_rate = sync_rate-Keeps config account;
  }
