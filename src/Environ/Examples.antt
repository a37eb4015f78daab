-- ===== src/Environ/Examples.antt =====
-- The settings of a mainnet, where the environment answers with fixed values, and those of sepolia.
use v3_keeper.Base.{ℕ, ◌≡◌, refl, pos, false, [], ◌∷◌, some, Text, text_eq, done, raised, key_error}
use v3_keeper.Transaction.Rejection.{codes}
use v3_keeper.Networks.{Base, NetworkConfig, PriceNetworkConfig, sepolia, networks, price_networks}
use v3_keeper.Environ.{Decouple, Settings, load_settings}
use v3_keeper.Environ.Loading.{AreDistinct, IsRunnable, load_settings-IsRunnable}

abbrev base : Base ℕ
base = record {
  mainnet = codes "mainnet";
  hoodi = codes "hoodi";
  gnosis = codes "gnosis";
  networks = (codes "mainnet", 12) ∷ (codes "hoodi", 12) ∷ (codes "gnosis", 5) ∷ [];
  empty_address = [];
  to_checksum_address = λ t. some [];
  ether = λ t. some 10;
}

abbrev choosing : Text → Decouple ℕ ℕ
choosing network = record {
  text = λ name default w. done [] w;
  choice = λ name choices w. done network w;
  csv = λ name default w. done [] w;
  flag = λ name default w. done false w;
  int = λ name default w. done (pos 1) w;
  float = λ name default w. done 0 w;
}

abbrev price_config : PriceNetworkConfig
price_config = record {
  target_chain = 23;
  target_address = [];
  target_price_feed_contract_address = [];
  price_feed_sender_contract_address = [];
}

abbrev config : NetworkConfig ℕ
config = record {
  base = 12;
  symbol = codes "ETH";
  keeper_min_balance = 10;
  strategy_registry_contract_address = [];
  ostoken_vault_escrow_contract_address = [];
  leverage_strategy_id = codes "0x8b74cefe9f33d72ccd3521e6d331272921607e547c75c914c2c56cfdad9defed";
  vault_user_ltv_tracker_contract_address = [];
  config_updated_checkpoint_block = 25573756;
  config_updated_event_block = 25093055;
}

abbrev on_mainnet : Settings ℕ ℕ
on_mainnet = record {
  network = codes "mainnet";
  network_config = config;
  execution_endpoints = [];
  consensus_endpoints = [];
  private_key = [];
  skip_distributor_rewards = false;
  skip_oseth_price_update = false;
  price = record {
    l2_execution_endpoints = [];
    price_network_config = some price_config;
    price_update_interval = pos 1;
    price_max_waiting_time = pos 1;
  };
  services = record {
    skip_force_exits = false;
    force_exits_update_interval = pos 1;
    ltv_percent_delta = 0;
    skip_update_ltv = false;
    ltv_update_interval = pos 1;
    graph_api_url = [];
    graph_api_timeout = pos 1;
    graph_api_retry_timeout = pos 1;
    graph_page_size = pos 1;
  };
  common = record {
    log_level = [];
    web3_log_level = [];
    gql_log_level = [];
    ipfs_fetch_endpoints = [];
    ipfs_client_timeout = pos 1;
    ipfs_client_retry_timeout = pos 1;
    default_retry_time = pos 30;
    validators_fetch_chunk_size = pos 1;
    sentry_dsn = [];
    metrics_host = [];
    metrics_port = pos 1;
    execution_transaction_timeout = pos 1;
    events_range_sec = pos 1;
    events_concurrency = pos 1;
    oracle_timeout = pos 1;
    max_fee_per_gas_gwei = pos 1;
    priority_fee_num_blocks = pos 1;
    priority_fee_percentile = 0;
    attempts_with_default_gas = pos 1;
  };
}

loads : load_settings base (choosing (codes "mainnet")) 0 ≡ done on_mainnet 0
unfolding load_settings networks price_networks
loads = refl

-- The network that is enabled but is not in the table.
sepolia_fails : load_settings base (choosing sepolia) 0 ≡ raised key_error 0
unfolding load_settings networks price_networks
sepolia_fails = refl

distinct_names : AreDistinct base
distinct_names = record {
  mainnet_hoodi = refl;
  mainnet_gnosis = refl;
  mainnet_sepolia = refl;
  hoodi_sepolia = refl;
  gnosis_sepolia = refl;
}

load_settings-IsRunnable_example : IsRunnable base on_mainnet
load_settings-IsRunnable_example =
    load_settings-IsRunnable base (choosing (codes "mainnet")) 0 0 on_mainnet distinct_names loads
