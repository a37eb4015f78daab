-- ===== src/Keeper/Wired/Safety.antt =====
-- The transactions of all services through the rounds of the main loop.
use v3_keeper.Base.{◌≡◌, [], All, ℕ, M, Sys, ext, after, Keeps}
use v3_keeper.Networks.{PriceNetworkConfig}
use v3_keeper.Transaction.Manager.{Manager, Node}
use v3_keeper.Transaction.Manager.Soundness.{IsSafe, Sound, read-IsSound}
use v3_keeper.Contracts.Wrappers.{ContractCall, Views}
use v3_keeper.Contracts.Wrappers.Safety.{
  keeper_contract-Keeps, merkle_distributor_contract-Keeps, tracker_contract-Keeps,
  force_exit_contracts-Keeps, strategy_contracts-Keeps, price_feed_contracts-Keeps,
}
use v3_keeper.Keeper.{Memory, Settings, main}
use v3_keeper.Keeper.Frame.{Kept, main-OnEnv}
use v3_keeper.Keeper.Wired.{Peers, wired}

module _ {E F G J V : Type 0} (peers : Peers E F G J V) (views : Views V)
    (node : Node ContractCall V) (manager_settings : v3_keeper.Transaction.Manager.Settings)
    (config : PriceNetworkConfig) (account : ℕ) (settings : Settings F) where
  abbrev SoundState : Sys Manager V → Type 0
  SoundState = Sound node manager_settings

  reads : {A : Type 0} (m : M V A) → Keeps SoundState (ext m)
  reads m = read-IsSound node manager_settings m

  wired-Keeps : Kept SoundState (wired peers views node manager_settings config account)
  unfolding wired
  wired-Keeps = record {
    chain = record {
      finalized_block = reads _;
      get_config_update_event = λ f t. reads _;
      fetch_json = λ e. reads _;
      get_rewards_threshold = reads _;
      build_protocol_config = λ j n. reads _;
    };
    rewards_http = record { fetch = λ url. reads _ };
    keeper_contract = keeper_contract-Keeps views node manager_settings;
    distributor_fetch = λ url. reads _;
    distributor_contract = merkle_distributor_contract-Keeps views node manager_settings;
    feed = price_feed_contracts-Keeps views node manager_settings config account peers.time;
    exits_http = record { fetch = λ url. reads _ };
    consensus = record {
      head_slot = reads _;
      get_validators_by_ids = λ ids slot. reads _;
      submit_voluntary_exit = λ i signature. reads _;
    };
    graph_node = record {
      fetch_vaults = λ query. reads _;
      latest_block = reads _;
      block_at = λ t. reads _;
    };
    force_graph = record {
      positions = λ n. reads _;
      allocators = λ ltv addresses n. reads _;
      ostoken_exit_requests = λ ltv n. reads _;
      exit_requests = λ ids n. reads _;
      owners = λ proxy. reads _;
    };
    force_contracts = force_exit_contracts-Keeps views node manager_settings;
    registry = strategy_contracts-Keeps views node manager_settings;
    force_chain = record { time = reads _; finalized_block = reads _ };
    ltv_graph = record { networks = λ n. reads _; allocators = λ vault n. reads _ };
    tracker = tracker_contract-Keeps views node manager_settings;
    ltv_chain = record { time = reads _; finalized_block = reads _ };
    interrupted = reads _;
    time = reads _;
    handler_sleep = λ n. reads _;
    set_balance = reads _;
    clients = record {
      is_syncing = λ e. reads _;
      get_finality_checkpoint = λ e. reads _;
      disconnect_consensus = λ e. reads _;
      syncing = λ e. reads _;
      block_number = λ e. reads _;
      disconnect_execution = λ e. reads _;
      fetch_example = λ e. reads _;
      fetch_oracle = λ e. reads _;
      get_keeper_balance = reads _;
      sleep = λ n. reads _;
    };
    setup_clients = reads _;
    close_clients = reads _;
    metrics_server = reads _;
  }

  -- Over the contracts' wrappers and the transaction manager: if the process starts with no records and nothing
  -- sent, then each transaction that it ever broadcasts, in its checks or in any number of rounds, has either no
  -- fees set or both fees set, the priority part at most the whole and the whole at most the ceiling, whatever the
  -- nodes, the contracts and the endpoints answer, and whether the process goes on, ends or raises.
  pub main-IsSafe :
      (fuel : ℕ) (s : Sys (Memory J) (Sys Manager V))
      → s.env.mem.records ≡ []
      → s.env.mem.sent ≡ []
      → All
          (IsSafe manager_settings.ceiling)
          (after (
            main
              (wired peers views node manager_settings config account)
              settings
              fuel
              s)).env.mem.sent
  main-IsSafe fuel s no_records none_sent =
      let sound : SoundState s.env = record {
        readable = rw no_records tt;
        sent_safe = rw none_sent tt;
      } in
      let kept =
        main-OnEnv (wired peers views node manager_settings config account) wired-Keeps settings
          fuel in
      (kept.at s (record { on_env = sound })).on_env.sent_safe
