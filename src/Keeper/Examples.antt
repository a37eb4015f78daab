-- ===== src/Keeper/Examples.antt =====
-- One oracle, whose endpoint answers no vote, and nodes and contracts of which some raise. The world counts
-- the calls of the interrupt handler's `sleep`.
use v3_keeper.Base.{
  ◌-◌, ◌≤◌, Post, Keeps, ℕ, suc, ◌+◌, ◌≡◌, ltb, refl, true, false, [], ◌∷◌, none, some, pos, M, Sys,
  done, raised, runtime_error, after, arith,
}
use v3_keeper.Config.{Oracle}
use v3_keeper.Rewards.Service.Validity.{IsBounded}
use v3_keeper.Startup.{Environment, flag}
use v3_keeper.Keeper.{ProtocolConfig, Memory, Settings, Outside, start_keeper}
use v3_keeper.Keeper.Rounds.{start_keeper-IsBounded}
use v3_keeper.Keeper.Frame.{Kept}
use v3_keeper.Keeper.Termination.{IsInterrupted, start_keeper-ends}
use v3_keeper.Keeper.Isolation.{Quiet, IsExiting, start_keeper-Quiet}

abbrev fails : {A : Type 0} → M ℕ A
fails w = raised (runtime_error "connection lost") w

abbrev answers : {A : Type 0} → A → M ℕ A
answers a w = done a w

abbrev oracle : Oracle
oracle = record { address = 5 ∷ []; endpoints = (6 ∷ []) ∷ [] }

abbrev protocol_config : ProtocolConfig
protocol_config = record {
  oracles = oracle ∷ [];
  rewards_threshold = 1;
  exit_signature_recover_threshold = 1;
}

abbrev pub outside : Outside ℕ ℕ ℕ ℕ ℕ ℕ
outside = record {
  chain = record {
    finalized_block = answers 100;
    get_config_update_event = λ f t. answers (some 1);
    fetch_json = λ e. answers e;
    get_rewards_threshold = answers 1;
    build_protocol_config = λ j n. answers protocol_config;
  };
  rewards_http = record { fetch = λ url. answers none; to_bytes = λ t. some t };
  keeper_contract = record {
    can_update_rewards = answers true;
    get_rewards_nonce = answers 3;
    update_rewards = λ body sigs. fails;
  };
  to_int = λ t. 0;
  distributor_fetch = λ url. fails;
  distributor_contract = record {
    nonce = answers 1;
    next_update_timestamp = answers 1;
    rewards_min_oracles = answers 1;
    rewards_root = answers [];
    set_rewards_root = λ body sigs. fails;
  };
  feed = record {
    latest_timestamp = fails;
    time = answers 9;
    quote_rate = answers 9;
    sync_rate = λ rate. fails;
  };
  exits_http = record { fetch = λ url. answers []; to_bytes = λ t. some t };
  consensus = record {
    head_slot = fails;
    get_validators_by_ids = λ ids slot. answers [];
    submit_voluntary_exit = λ i sig. answers tt;
  };
  curve = record {
    prime = 7;
    infinity = 0;
    add = λ a b. a + b;
    multiply = λ a n. a;
    difference_inv = λ i j. 1;
    signature_to_point = λ t. some 1;
    point_to_signature = λ g. g ∷ [];
  };
  codec = record { to_checksum_address = λ t. some t; to_bytes = λ t. some t };
  graph_node = record {
    fetch_vaults = λ query. answers [];
    latest_block = fails;
    block_at = λ t. answers 9;
  };
  floats = record {
    of_text = λ t. some 9;
    of_wad = λ n. 8;
    gt = λ a b. true;
    sub = λ a b. a;
    mul = λ a b. a;
    str = λ a. [];
  };
  force_graph = record {
    positions = λ block. fails;
    allocators = λ ltv addresses block. fails;
    ostoken_exit_requests = λ ltv block. fails;
    exit_requests = λ ids block. fails;
    owners = λ proxy. fails;
  };
  force_contracts = record {
    can_harvest = λ vault block. fails;
    aggregate = λ calls block. fails;
    transact = λ calls. fails;
    to_int = λ t. 0;
  };
  registry = record {
    borrow_ltv_percent = answers (pos 1);
    vault_ltv_percent = answers (pos 1);
    liq_threshold_percent = answers (pos 1);
    owner = λ proxy. fails;
  };
  force_chain = record { time = answers 9; finalized_block = answers 90 };
  ltv_graph = record { networks = λ block. fails; allocators = λ vault block. fails };
  tracker = record {
    get_vault_max_ltv = λ vault params. fails;
    get_max_ltv_user = λ vault. fails;
    update_vault_max_ltv_user = λ vault user params. fails;
  };
  ltv_chain = record { time = answers 9; finalized_block = answers 90 };
  clients = record {
    is_syncing = λ e. answers false;
    get_finality_checkpoint = λ e. answers tt;
    disconnect_consensus = λ e. answers tt;
    syncing = λ e. answers (flag false);
    block_number = λ e. answers 9;
    disconnect_execution = λ e. answers tt;
    fetch_example = λ e. answers tt;
    fetch_oracle = λ e. answers tt;
    get_keeper_balance = answers 9;
    sleep = λ n. answers tt;
  };
  setup_clients = answers tt;
  close_clients = answers tt;
  metrics_server = answers tt;
  interrupted = λ w. done (ltb 2 w) w;
  time = answers 5;
  handler_sleep = λ n w. done tt (suc w);
  set_balance = fails;
}

abbrev env : Environment
env = record {
  consensus_endpoints = [];
  execution_endpoints = [];
  l2_execution_endpoints = [];
  ipfs_fetch_endpoints = [];
  price_supported = true;
  force_exits_supported = true;
  skip_price = false;
  skip_force_exits = false;
  skip_update_ltv = false;
  price_max_waiting_time = 3;
  price_update_interval = 9;
  keeper_min_balance = 0;
}

abbrev pub settings : Settings ℕ
settings = record {
  config = record { checkpoint = 3; event_block = 3 };
  price = record { update_interval = 9; max_waiting_time = 3 };
  startup = env;
  skip_distributor_rewards = false;
  validators_fetch_chunk_size = 2;
  ltv_percent_delta = 1;
  force_exits_update_interval = 4;
  ltv_update_interval = 4;
  time_per_block = 12;
}

abbrev pub start : Sys (Memory ℕ) ℕ
start = record {
  mem = record {
    oracles_cache = record { checkpoint_block = none; config = 0; rewards_threshold = 0 };
    rewards_cache = record { data_by_ts = []; cache_size = 3 };
    app_state = record {
      last_price_updated_timestamp = none;
      force_exits_updated_timestamp = none;
      ltv_updated_timestamp = none;
    };
  };
  env = 0;
}

start-IsBounded : IsBounded 3 start.mem.rewards_cache
start-IsBounded = record {
  valid = record { nodup = tt; groups = tt };
  bound = omega arith;
  kept = refl;
}

start_keeper-IsBounded_example :
    IsBounded 3 (after (start_keeper outside settings 4 start)).mem.rewards_cache
start_keeper-IsBounded_example = start_keeper-IsBounded outside settings 3 4 start start-IsBounded

start_keeper-Quiet_example : Quiet (start_keeper outside settings 4 start)
start_keeper-Quiet_example =
    start_keeper-Quiet outside settings (λ w. tt) (λ w. tt) (λ n w. tt) 4 start

-- The sleeps that are left.
abbrev left : ℕ → ℕ
left w = 3 - w

module _ {R : ℕ → Type 0} where
  answers-Keeps : {A : Type 0} (a : A) → Keeps R (answers a)
  answers-Keeps a = record { at = λ w h. h }

  fails-Keeps : {A : Type 0} → Keeps R (fails {A = A})
  fails-Keeps = record { at = λ w h. h }

outside-Keeps : (n : ℕ) → Kept (λ w. left w ≤ n) outside
outside-Keeps n = record {
  chain = record {
    finalized_block = answers-Keeps 100;
    get_config_update_event = λ f t. answers-Keeps (some 1);
    fetch_json = λ e. answers-Keeps e;
    get_rewards_threshold = answers-Keeps 1;
    build_protocol_config = λ j m. answers-Keeps protocol_config;
  };
  rewards_http = record { fetch = λ url. answers-Keeps none };
  keeper_contract = record {
    can_update_rewards = answers-Keeps true;
    get_rewards_nonce = answers-Keeps 3;
    update_rewards = λ vote signatures. fails-Keeps;
  };
  distributor_fetch = λ url. fails-Keeps;
  distributor_contract = record {
    nonce = answers-Keeps 1;
    next_update_timestamp = answers-Keeps 1;
    rewards_min_oracles = answers-Keeps 1;
    rewards_root = answers-Keeps [];
    set_rewards_root = λ vote signatures. fails-Keeps;
  };
  feed = record {
    latest_timestamp = fails-Keeps;
    time = answers-Keeps 9;
    quote_rate = answers-Keeps 9;
    sync_rate = λ rate. fails-Keeps;
  };
  exits_http = record { fetch = λ url. answers-Keeps [] };
  consensus = record {
    head_slot = fails-Keeps;
    get_validators_by_ids = λ ids slot. answers-Keeps [];
    submit_voluntary_exit = λ i signature. answers-Keeps tt;
  };
  graph_node = record {
    fetch_vaults = λ query. answers-Keeps [];
    latest_block = fails-Keeps;
    block_at = λ t. answers-Keeps 9;
  };
  force_graph = record {
    positions = λ b. fails-Keeps;
    allocators = λ ltv addresses b. fails-Keeps;
    ostoken_exit_requests = λ ltv b. fails-Keeps;
    exit_requests = λ ids b. fails-Keeps;
    owners = λ proxy. fails-Keeps;
  };
  force_contracts = record {
    can_harvest = λ vault b. fails-Keeps;
    aggregate = λ calls b. fails-Keeps;
    transact = λ calls. fails-Keeps;
  };
  registry = record {
    borrow_ltv_percent = answers-Keeps (pos 1);
    vault_ltv_percent = answers-Keeps (pos 1);
    liq_threshold_percent = answers-Keeps (pos 1);
    owner = λ proxy. fails-Keeps;
  };
  force_chain = record { time = answers-Keeps 9; finalized_block = answers-Keeps 90 };
  ltv_graph = record { networks = λ b. fails-Keeps; allocators = λ vault b. fails-Keeps };
  tracker = record {
    get_vault_max_ltv = λ vault params. fails-Keeps;
    get_max_ltv_user = λ vault. fails-Keeps;
    update_vault_max_ltv_user = λ vault user params. fails-Keeps;
  };
  ltv_chain = record { time = answers-Keeps 9; finalized_block = answers-Keeps 90 };
  interrupted = record { at = λ w h. h };
  time = answers-Keeps 5;
  handler_sleep = λ m. record { at = λ w h. omega (arith, h) };
  set_balance = fails-Keeps;
  clients = record {
    is_syncing = λ e. answers-Keeps false;
    get_finality_checkpoint = λ e. answers-Keeps tt;
    disconnect_consensus = λ e. answers-Keeps tt;
    syncing = λ e. answers-Keeps (flag false);
    block_number = λ e. answers-Keeps 9;
    disconnect_execution = λ e. answers-Keeps tt;
    fetch_example = λ e. answers-Keeps tt;
    fetch_oracle = λ e. answers-Keeps tt;
    get_keeper_balance = answers-Keeps 9;
    sleep = λ m. answers-Keeps tt;
  };
  setup_clients = answers-Keeps tt;
  close_clients = answers-Keeps tt;
  metrics_server = answers-Keeps tt;
}

outside-IsInterrupted : IsInterrupted left outside
outside-IsInterrupted = record {
  asks = λ w. (omega arith, λ none_left. ground (arith, none_left));
  clock = λ w. omega arith;
  sleeps = λ n w. omega arith;
  kept = outside-Keeps;
}

start_keeper-ends_example :
    Post (λ b _. b ≡ true) (λ e _. IsExiting e) (start_keeper outside settings 4 start)
start_keeper-ends_example =
    start_keeper-ends outside settings left outside-IsInterrupted 3 start (omega arith)
