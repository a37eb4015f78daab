-- ===== src/Environ.antt =====
-- config/settings.py: the settings, as they are read from the environment. decouple's `config` is a parameter: an
-- operation for each cast.
pub mod Loading
mod Examples
use v3_keeper.Base.{
  ℤ, pos, Bool, false, List, [], ◌∷◌, Option, none, some, Text, text_eq, get, contains, M, pure,
  or_raise, ◌>>=◌, ◌>>◌, then_do, key_error,
}
use v3_keeper.Transaction.Rejection.{codes}
use v3_keeper.Networks.{
  Base, NetworkConfig, PriceNetworkConfig, sepolia, enabled_networks, networks, price_networks,
}

-- `config(name, default=..., cast=...)`: `none` for no default. Without a cast, with `Choices`, `Csv()`, `bool`,
-- `int` and `float`; `F` is the type of floats.
pub record Decouple (F W : Type 0) : Type 0 where
  pub text : Text → Option Text → M W Text
  pub choice : Text → List Text → M W Text
  pub csv : Text → Option Text → M W (List Text)
  pub flag : Text → Bool → M W Bool
  pub int : Text → ℤ → M W ℤ
  pub float : Text → Text → M W F

pub record PriceSettings : Type 0 where
  pub l2_execution_endpoints : List Text
  pub price_network_config : Option PriceNetworkConfig
  pub price_update_interval : ℤ
  pub price_max_waiting_time : ℤ

pub record ServiceSettings (F : Type 0) : Type 0 where
  pub skip_force_exits : Bool
  pub force_exits_update_interval : ℤ
  pub ltv_percent_delta : F
  pub skip_update_ltv : Bool
  pub ltv_update_interval : ℤ
  pub graph_api_url : Text
  pub graph_api_timeout : ℤ
  pub graph_api_retry_timeout : ℤ
  pub graph_page_size : ℤ

pub record CommonSettings (F : Type 0) : Type 0 where
  pub log_level : Text
  pub web3_log_level : Text
  pub gql_log_level : Text
  pub ipfs_fetch_endpoints : List Text
  pub ipfs_client_timeout : ℤ
  pub ipfs_client_retry_timeout : ℤ
  pub default_retry_time : ℤ
  pub validators_fetch_chunk_size : ℤ
  pub sentry_dsn : Text
  pub metrics_host : Text
  pub metrics_port : ℤ
  pub execution_transaction_timeout : ℤ
  pub events_range_sec : ℤ
  pub events_concurrency : ℤ
  pub oracle_timeout : ℤ
  pub max_fee_per_gas_gwei : ℤ
  pub priority_fee_num_blocks : ℤ
  pub priority_fee_percentile : F
  pub attempts_with_default_gas : ℤ

pub record Settings (B F : Type 0) : Type 0 where
  pub network : Text
  pub network_config : NetworkConfig B
  pub execution_endpoints : List Text
  pub consensus_endpoints : List Text
  pub private_key : Text
  pub skip_distributor_rewards : Bool
  pub skip_oseth_price_update : Bool
  pub price : PriceSettings
  pub services : ServiceSettings F
  pub common : CommonSettings F

abbrev pub default_ipfs_endpoints : Text
default_ipfs_endpoints =
    codes
      "https://gateway.pinata.cloud,https://stakewise.myfilebase.com,https://stakewise-ipfs.quicknode-ipfs.com,https://ipfs.io,https://ipfs.filebase.io"

module _ {B : Type 0} (base : Base B) where
  abbrev pub oseth_price_supported_networks : List Text
  oseth_price_supported_networks = base.mainnet ∷ sepolia ∷ []

  abbrev pub force_exits_supported_networks : List Text
  force_exits_supported_networks = base.mainnet ∷ base.hoodi ∷ []

module _ {B F W : Type 0} (base : Base B) (decouple : Decouple F W) where
  -- From the endpoints of the other network on.
  pub load_price : List (Text × Option PriceNetworkConfig) → Text → M W PriceSettings
  load_price prices network = do
    endpoints ← decouple.csv (codes "L2_EXECUTION_ENDPOINTS") (some [])
    price_config ← or_raise key_error (get network prices)
    interval ← decouple.int (codes "PRICE_UPDATE_INTERVAL") (pos 43200)
    waiting ← decouple.int (codes "PRICE_MAX_WAITING_TIME") (pos 3600)
    pure (record {
      l2_execution_endpoints = endpoints;
      price_network_config = price_config;
      price_update_interval = interval;
      price_max_waiting_time = waiting;
    })

  -- The force exits, the LTV and the graph.
  pub load_services : M W (ServiceSettings F)
  load_services = do
    skip_force ← decouple.flag (codes "SKIP_FORCE_EXITS") false
    force_interval ← decouple.int (codes "FORCE_EXITS_UPDATE_INTERVAL") (pos 21600)
    delta ← decouple.float (codes "LTV_PERCENT_DELTA") (codes "0.0002")
    skip_ltv ← decouple.flag (codes "SKIP_UPDATE_LTV") false
    ltv_interval ← decouple.int (codes "LTV_UPDATE_INTERVAL") (pos 21600)
    url ← decouple.text (codes "GRAPH_API_URL") (some [])
    timeout ← decouple.int (codes "GRAPH_API_TIMEOUT") (pos 10)
    retry_timeout ← decouple.int (codes "GRAPH_API_RETRY_TIMEOUT") (pos 60)
    page_size ← decouple.int (codes "GRAPH_PAGE_SIZE") (pos 100)
    pure (record {
      skip_force_exits = skip_force;
      force_exits_update_interval = force_interval;
      ltv_percent_delta = delta;
      skip_update_ltv = skip_ltv;
      ltv_update_interval = ltv_interval;
      graph_api_url = url;
      graph_api_timeout = timeout;
      graph_api_retry_timeout = retry_timeout;
      graph_page_size = page_size;
    })

  -- From the log levels on.
  pub load_common : M W (CommonSettings F)
  load_common = do
    level ← decouple.text (codes "LOG_LEVEL") (some (codes "INFO"))
    web3_level ← decouple.text (codes "WEB3_LOG_LEVEL") (some (codes "INFO"))
    gql_level ← decouple.text (codes "GQL_LOG_LEVEL") (some (codes "WARNING"))
    ipfs_endpoints ← decouple.csv (codes "IPFS_FETCH_ENDPOINTS") (some default_ipfs_endpoints)
    ipfs_timeout ← decouple.int (codes "IPFS_CLIENT_TIMEOUT") (pos 60)
    ipfs_retry_timeout ← decouple.int (codes "IPFS_CLIENT_RETRY_TIMEOUT") (pos 120)
    chunk_size ← decouple.int (codes "VALIDATORS_FETCH_CHUNK_SIZE") (pos 100)
    dsn ← decouple.text (codes "SENTRY_DSN") (some [])
    host ← decouple.text (codes "METRICS_HOST") (some (codes "127.0.0.1"))
    port ← decouple.int (codes "METRICS_PORT") (pos 9100)
    transaction_timeout ← decouple.int (codes "EXECUTION_TRANSACTION_TIMEOUT") (pos 60)
    range_sec ← decouple.int (codes "EVENTS_RANGE_SEC") (pos 43200)
    concurrency ← decouple.int (codes "EVENTS_CONCURRENCY") (pos 10)
    oracle_timeout ← decouple.int (codes "ORACLE_TIMEOUT") (pos 60)
    max_fee ← decouple.int (codes "MAX_FEE_PER_GAS_GWEI") (pos 100)
    num_blocks ← decouple.int (codes "PRIORITY_FEE_NUM_BLOCKS") (pos 10)
    percentile ← decouple.float (codes "PRIORITY_FEE_PERCENTILE") (codes "80.0")
    attempts ← decouple.int (codes "ATTEMPTS_WITH_DEFAULT_GAS") (pos 5)
    pure (record {
      log_level = level;
      web3_log_level = web3_level;
      gql_log_level = gql_level;
      ipfs_fetch_endpoints = ipfs_endpoints;
      ipfs_client_timeout = ipfs_timeout;
      ipfs_client_retry_timeout = ipfs_retry_timeout;
      default_retry_time = pos 30;
      validators_fetch_chunk_size = chunk_size;
      sentry_dsn = dsn;
      metrics_host = host;
      metrics_port = port;
      execution_transaction_timeout = transaction_timeout;
      events_range_sec = range_sec;
      events_concurrency = concurrency;
      oracle_timeout = oracle_timeout;
      max_fee_per_gas_gwei = max_fee;
      priority_fee_num_blocks = num_blocks;
      priority_fee_percentile = percentile;
      attempts_with_default_gas = attempts;
    })

  -- From the choice of the network on, with the two tables.
  pub load_with :
      List (Text × NetworkConfig B) → List (Text × Option PriceNetworkConfig) → M W (Settings B F)
  unfolding load_price load_services load_common
  load_with table prices = do
    network ← decouple.choice (codes "NETWORK") (enabled_networks base)
    config ← or_raise key_error (get network table)
    execution ← decouple.csv (codes "EXECUTION_ENDPOINTS") none
    consensus ← decouple.csv (codes "CONSENSUS_ENDPOINTS") none
    key ← decouple.text (codes "PRIVATE_KEY") none
    skip_distributor ← decouple.flag (codes "SKIP_DISTRIBUTOR_REWARDS") false
    skip_oseth ← decouple.flag (codes "SKIP_OSETH_PRICE_UPDATE") false
    price_settings ← load_price prices network
    service_settings ← load_services
    common_settings ← load_common
    pure (record {
      network = network;
      network_config = config;
      execution_endpoints = execution;
      consensus_endpoints = consensus;
      private_key = key;
      skip_distributor_rewards = skip_distributor;
      skip_oseth_price_update = skip_oseth;
      price = price_settings;
      services = service_settings;
      common = common_settings;
    })

  -- The two modules, one after the other.
  unfoldable pub load_settings : M W (Settings B F)
  unfolding load_with
  load_settings = do table ← networks base; prices ← price_networks base; load_with table prices
