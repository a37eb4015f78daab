-- ===== src/Contracts/Wrappers.antt =====
-- The contracts of common/contracts.py, as the services see them: reads are calls of the node, and each
-- transaction goes through the transaction manager. A `tx_function` is a value that tells the call.
pub mod Safety
use v3_keeper.Base.{
  ℕ, List, [], ◌∷◌, ◌++◌, Option, none, some, ℤ, pos, Bool, false, Text, M, Sys, ext, pure,
  or_raise, ◌>>=◌, ◌>>◌, then_do, traverse, concat, value_error,
}
use v3_keeper.Graph.{HarvestParams, zeros}
use v3_keeper.Rewards.{RewardVoteBody}
use v3_keeper.Rewards.Service.{Keeper}
use v3_keeper.Distributor.{DistributorRewardVoteBody, Distributor}
use v3_keeper.Ltv.{Tracker}
use v3_keeper.ForceExit.Execution.{StrategyCall, Contracts}
use v3_keeper.ForceExit.Service.{Registry}
use v3_keeper.Networks.{PriceNetworkConfig}
use v3_keeper.Price.{Feed}
use v3_keeper.Transaction.Manager.{Manager, Node, Settings, Receipt, no_params, transact}

-- A call that is sent, with its arguments.
pub data ContractCall : Type 0 where
  update_rewards_call : RewardVoteBody → Text → ContractCall
  set_rewards_root_call : Text → Text → Text → ContractCall
  aggregate_call : List (Text × StrategyCall) → ContractCall
  update_vault_max_ltv_user_call : Text → Text → HarvestParams → ContractCall
  sync_rate_call : ℕ → Text → ContractCall

-- The view functions of the contracts, and the conversions of bytes and hexadecimal texts.
pub record Views (V : Type 0) : Type 0 where
  pub rewards_nonce : M V ℕ
  pub can_update_rewards : M V Bool
  pub can_harvest : Text → ℕ → M V Bool
  pub aggregate : List (Text × StrategyCall) → ℕ → M V (List Text)
  pub rewards_root : M V Text
  pub nonce : M V ℕ
  pub rewards_min_oracles : M V ℕ
  pub next_rewards_root_update_timestamp : M V ℕ
  pub owner : Text → M V Text
  pub liq_threshold_percent : M V ℕ
  pub vault_ltv_percent : M V Text
  pub borrow_ltv_percent : M V Text
  pub vault_to_user : Text → M V Text
  pub vault_max_ltv : Text → HarvestParams → M V ℕ
  pub latest_timestamp : M V ℕ
  pub quote_rate_sync : ℕ → M V ℕ
  pub to_int : Text → ℕ
  pub to_hex : Text → Text
  pub hash_to_hex : ℕ → Text
  pub to_bytes : Text → Option Text
  pub to_checksum_address : Text → Option Text

-- `_get_zero_harvest_params`
abbrev pub zero_harvest_params : HarvestParams
zero_harvest_params = record {
  rewards_root = zeros 32;
  reward = pos 0;
  unlocked_mev_reward = pos 0;
  proof = [];
}

abbrev pub params_or_zero : Option HarvestParams → HarvestParams
params_or_zero none = zero_harvest_params
params_or_zero (some params) = params

module _ {V : Type 0} (views : Views V) (node : Node ContractCall V) (settings : Settings) where
  -- `tx_manager.transact(tx_function)`, and the hash of the receipt's transaction.
  abbrev pub receipt_hash : Option Receipt → Option Text
  receipt_hash none = none
  receipt_hash (some receipt) = some (views.hash_to_hex receipt.transaction_hash)

  pub send_call : ContractCall → M (Sys Manager V) (Option Text)
  send_call call = do
    receipt ← transact node settings call none false false
    pure (receipt_hash receipt)

  abbrev pub checked_address : Text → M (Sys Manager V) Text
  checked_address address =
      or_raise (value_error "invalid address") (views.to_checksum_address address)

  unfoldable pub keeper_contract : Keeper (Sys Manager V)
  unfolding send_call
  keeper_contract = record {
    can_update_rewards = ext views.can_update_rewards;
    get_rewards_nonce = ext views.rewards_nonce;
    update_rewards = λ vote signatures. send_call (update_rewards_call vote signatures);
  }

  pub set_rewards_root : DistributorRewardVoteBody → List Text → M (Sys Manager V) (Option Text)
  unfolding send_call
  set_rewards_root vote signatures = do
    bytes ← traverse (λ s. or_raise (value_error "invalid signature") (views.to_bytes s)) signatures
    send_call (set_rewards_root_call vote.root vote.ipfs_hash (concat bytes))

  pub current_root : M (Sys Manager V) Text
  current_root = do root ← ext views.rewards_root; pure (views.to_hex root)

  unfoldable pub merkle_distributor_contract : Distributor (Sys Manager V)
  unfolding set_rewards_root current_root
  merkle_distributor_contract = record {
    nonce = ext views.nonce;
    next_update_timestamp = ext views.next_rewards_root_update_timestamp;
    rewards_min_oracles = ext views.rewards_min_oracles;
    rewards_root = current_root;
    set_rewards_root = set_rewards_root;
  }

  pub get_max_ltv_user : Text → M (Sys Manager V) Text
  get_max_ltv_user vault = do user ← ext (views.vault_to_user vault); checked_address user

  unfoldable pub vault_user_ltv_tracker_contract : Tracker (Sys Manager V)
  unfolding send_call get_max_ltv_user
  vault_user_ltv_tracker_contract = record {
    get_vault_max_ltv = λ vault params. ext (views.vault_max_ltv vault (params_or_zero params));
    get_max_ltv_user = get_max_ltv_user;
    update_vault_max_ltv_user = λ vault user params.
        send_call (update_vault_max_ltv_user_call vault user (params_or_zero params));
  }

  -- The keeper, the multicall contract and the manager, for the force exits.
  unfoldable pub force_exit_contracts : Contracts (Sys Manager V)
  unfolding send_call
  force_exit_contracts = record {
    can_harvest = λ vault block_number. ext (views.can_harvest vault block_number);
    aggregate = λ calls block_number. ext (views.aggregate calls block_number);
    transact = λ calls. send_call (aggregate_call calls);
    to_int = views.to_int;
  }

  pub percent_of : M V Text → M (Sys Manager V) ℤ
  percent_of read = do bytes ← ext read; pure (pos (views.to_int bytes))

  pub liq_threshold : M (Sys Manager V) ℤ
  liq_threshold = do percent ← ext views.liq_threshold_percent; pure (pos percent)

  unfoldable pub strategy_contracts : Registry (Sys Manager V)
  unfolding percent_of liq_threshold
  strategy_contracts = record {
    borrow_ltv_percent = percent_of views.borrow_ltv_percent;
    vault_ltv_percent = percent_of views.vault_ltv_percent;
    liq_threshold_percent = liq_threshold;
    owner = λ proxy. ext (views.owner proxy);
  }

  -- The two price feed contracts and the transaction of price/service.py. `time` is the clock, `account` the
  -- keeper's address.
  pub sync_rate : PriceNetworkConfig → ℕ → ℕ → M (Sys Manager V) (Option Receipt)
  sync_rate config account rate =
      transact node settings (sync_rate_call config.target_chain config.target_address)
        (some (record no_params { sender = some account; amount = some rate })) false false

  unfoldable pub price_feed_contracts :
      PriceNetworkConfig → ℕ → M V ℕ → Feed Receipt (Sys Manager V)
  unfolding sync_rate
  price_feed_contracts config account time = record {
    latest_timestamp = ext views.latest_timestamp;
    time = ext time;
    quote_rate = ext (views.quote_rate_sync config.target_chain);
    sync_rate = λ rate. sync_rate config account rate;
  }
