-- ===== src/Networks.antt =====
-- config/networks.py: the networks that can be configured. What sw_utils and web3 give is a parameter.
pub mod Tables
use v3_keeper.Base.{
  ℕ, List, [], ◌∷◌, Option, none, some, Text, text_eq, get, put, M, pure, raise, or_raise, ◌>>=◌,
  ◌>>◌, then_do, key_error, value_error,
}
use v3_keeper.Transaction.Rejection.{codes}

-- The names and the table of sw_utils.networks with entries of type `B`, EMPTY_ADDR_HEX, and
-- `Web3.to_checksum_address` and `Web3.to_wei` of an amount of ether, `none` where they raise.
pub record Base (B : Type 0) : Type 0 where
  pub mainnet : Text
  pub hoodi : Text
  pub gnosis : Text
  pub networks : List (Text × B)
  pub empty_address : Text
  pub to_checksum_address : Text → Option Text
  pub ether : Text → Option ℕ

-- `base` stands for the fields of `BaseNetworkConfig`.
pub record NetworkConfig (B : Type 0) : Type 0 where
  pub base : B
  pub symbol : Text
  pub keeper_min_balance : ℕ
  pub strategy_registry_contract_address : Text
  pub ostoken_vault_escrow_contract_address : Text
  pub leverage_strategy_id : Text
  pub vault_user_ltv_tracker_contract_address : Text
  pub config_updated_checkpoint_block : ℕ
  pub config_updated_event_block : ℕ

pub record PriceNetworkConfig : Type 0 where
  pub target_chain : ℕ
  pub target_address : Text
  pub target_price_feed_contract_address : Text
  pub price_feed_sender_contract_address : Text

abbrev pub sepolia : Text
sepolia = codes "sepolia"

module _ {B : Type 0} (base : Base B) where
  abbrev pub enabled_networks : List Text
  enabled_networks = base.mainnet ∷ base.hoodi ∷ base.gnosis ∷ sepolia ∷ []

  module _ {W : Type 0} where
    abbrev pub checksum : Text → M W Text
    checksum address = or_raise (value_error "invalid address") (base.to_checksum_address address)

    -- `NetworkConfig(**asdict(BASE_NETWORKS[name]), ...)`; the registry's address is a value or is computed.
    pub network_config : Text → Text → Text → M W Text → Text → Text → ℕ → ℕ → M W (NetworkConfig B)
    network_config name symbol strategy_id registry escrow tracker checkpoint_block event_block = do
      fields ← or_raise key_error (get name base.networks)
      balance ← or_raise (value_error "invalid amount") (base.ether (codes "0.01"))
      registry_address ← registry
      escrow_address ← checksum escrow
      tracker_address ← checksum tracker
      pure (record {
        base = fields;
        symbol = symbol;
        keeper_min_balance = balance;
        strategy_registry_contract_address = registry_address;
        ostoken_vault_escrow_contract_address = escrow_address;
        leverage_strategy_id = strategy_id;
        vault_user_ltv_tracker_contract_address = tracker_address;
        config_updated_checkpoint_block = checkpoint_block;
        config_updated_event_block = event_block;
      })

    abbrev pub mainnet_config : M W (NetworkConfig B)
    mainnet_config =
        network_config base.mainnet (codes "ETH")
          (codes "0x8b74cefe9f33d72ccd3521e6d331272921607e547c75c914c2c56cfdad9defed")
          (checksum (codes "0x90b82E4b3aa385B4A02B7EBc1892a4BeD6B5c465"))
          (codes "0x09e84205DF7c68907e619D07aFD90143c5763605")
          (codes "0xe0Ae8B04922d6e3fA06c2496A94EF2875EFcC7BB") 25573756 25093055

    abbrev pub hoodi_config : M W (NetworkConfig B)
    hoodi_config =
        network_config base.hoodi (codes "HoodiETH")
          (codes "0x8b74cefe9f33d72ccd3521e6d331272921607e547c75c914c2c56cfdad9defed")
          (checksum (codes "0x6A2911F94da08Da01158d645Bf85152b338E015D"))
          (codes "0xdC1347cC04d4a8945b98A09C3c5585286bbA5C2B")
          (codes "0xcF619F9Dd8eB483239de953251fd13cB0F977c6C") 3251588 1279009

    abbrev pub gnosis_config : Text → M W (NetworkConfig B)
    gnosis_config zero_checksum_address =
        network_config base.gnosis (codes "xDAI") [] (pure zero_checksum_address)
          (codes "0x28F325dD287a5984B754d34CfCA38af3A8429e71")
          (codes "0xdEa72c54f63470349CE2dC12f8232FE00241abE6") 47299352 42392284

    -- ZERO_CHECKSUM_ADDRESS and NETWORKS
    unfoldable pub networks : M W (List (Text × NetworkConfig B))
    unfolding network_config
    networks = do
      zero_checksum_address ← checksum base.empty_address
      on_mainnet ← mainnet_config
      on_hoodi ← hoodi_config
      on_gnosis ← gnosis_config zero_checksum_address
      pure (put base.gnosis on_gnosis (put base.hoodi on_hoodi ((base.mainnet, on_mainnet) ∷ [])))

    pub price_network_config : ℕ → Text → Text → Text → M W PriceNetworkConfig
    price_network_config chain target feed sender = do
      target_address ← checksum target
      feed_address ← checksum feed
      sender_address ← checksum sender
      pure (record {
        target_chain = chain;
        target_address = target_address;
        target_price_feed_contract_address = feed_address;
        price_feed_sender_contract_address = sender_address;
      })

    abbrev pub mainnet_price_config : M W PriceNetworkConfig
    mainnet_price_config =
        price_network_config 23 (codes "0xbd335c16c94be8c4dd073ae376ddf78bec1858df")
          (codes "0xba74737a078c05500dd98c970909e4a3b90c35c6")
          (codes "0xf7d4e7273e5015c96728a6b02f31c505ee184603")

    abbrev pub sepolia_price_config : M W PriceNetworkConfig
    sepolia_price_config =
        price_network_config 10003 (codes "0x744836a91f5151c6ef730eb7e07c232997debaaa")
          (codes "0x4026affabd9032bcc87fa05c02f088905f3dc09b")
          (codes "0xe572a8631a49ec4c334812bb692beecf934ac4e9")

    -- PRICE_NETWORKS
    unfoldable pub price_networks : M W (List (Text × Option PriceNetworkConfig))
    unfolding price_network_config
    price_networks = do
      on_mainnet ← mainnet_price_config
      on_sepolia ← sepolia_price_config
      pure (
          put sepolia (some on_sepolia)
            (put base.gnosis none (put base.hoodi none ((base.mainnet, some on_mainnet) ∷ []))))
