-- ===== src/Config.antt =====
-- protocol_config/service.py and typings.py: the oracles' configuration, cached between the runs of the
-- main loop and refreshed by events. The chain, the contract and IPFS are parameters.
pub mod Refresh
pub mod Search
pub mod Frame
mod Examples
use v3_keeper.Base.{
  ℕ, ◌+◌, leb, if◌then◌else◌, Option, none, some, Sys, M, ext, gets, modify, pure, raise, ◌>>=◌,
  ◌>>◌, then_do, with_mem, value_error, List, Text,
}

-- The fields of an oracle of the configuration that are used.
pub record Oracle : Type 0 where
  pub address : Text
  pub endpoints : List Text

-- `OraclesCache`; `J` is the type of configurations.
pub record OraclesCache (J : Type 0) : Type 0 where
  pub checkpoint_block : Option ℕ
  pub config : J
  pub rewards_threshold : ℕ

-- CONFIG_UPDATED_CHECKPOINT_BLOCK and CONFIG_UPDATED_EVENT_BLOCK of the network.
pub record Settings : Type 0 where
  pub checkpoint : ℕ
  pub event_block : ℕ

-- `E` is the type of events, `P` that of protocol configurations, `W` the outside world.
pub record Chain (E J P W : Type 0) : Type 0 where
  pub finalized_block : M W ℕ
  pub get_config_update_event : ℕ → ℕ → M W (Option E)
  pub fetch_json : E → M W J
  pub get_rewards_threshold : M W ℕ
  pub build_protocol_config : J → ℕ → M W P

module _ {E J P W : Type 0} (chain : Chain E J P W) (settings : Settings) where
  -- `_get_config_update_event_since_checkpoint`
  pub event_since_checkpoint : ℕ → M W (Option E)
  event_since_checkpoint to_block = do
    event ← chain.get_config_update_event (settings.checkpoint + 1) to_block
    elim event [
      | some e ↦ pure (some e)
      | none ↦ chain.get_config_update_event settings.event_block settings.event_block
    ]

  -- The configuration of a cold cache.
  pub cold_config : ℕ → M W J
  unfolding event_since_checkpoint
  cold_config to_block = do
    event ← event_since_checkpoint to_block
    elim event [
      | none ↦ raise (value_error "Failed to fetch IPFS hash of oracles config")
      | some e ↦ chain.fetch_json e
    ]

  -- That of a warm cache, from its checkpoint and its configuration.
  pub warm_config : ℕ → J → ℕ → M W J
  warm_config checkpoint config to_block = do
    event ←
        if leb (checkpoint + 1) to_block
        then chain.get_config_update_event (checkpoint + 1) to_block
        else pure none
    elim event [ none ↦ pure config | some e ↦ chain.fetch_json e ]

  pub current_config : OraclesCache J → ℕ → M W J
  unfolding cold_config warm_config
  current_config cache to_block = elim cache.checkpoint_block [
    | none ↦ cold_config to_block
    | some c ↦ warm_config c cache.config to_block
  ]

  -- `get_protocol_config` up to the update of the cache.
  pub refresh : M (Sys (OraclesCache J) W) (J × ℕ)
  unfolding current_config
  refresh = do
    to_block ← ext chain.finalized_block
    cache ← gets (λ c. c)
    config ← ext (current_config cache to_block)
    rewards_threshold ← ext chain.get_rewards_threshold
    modify (λ _. record {
      checkpoint_block = some to_block;
      config = config;
      rewards_threshold = rewards_threshold;
    })
    pure (config, rewards_threshold)

  unfoldable pub get_protocol_config : M (Sys (OraclesCache J) W) P
  unfolding refresh
  get_protocol_config = do
    (config, rewards_threshold) ← refresh
    ext (chain.build_protocol_config config rewards_threshold)
