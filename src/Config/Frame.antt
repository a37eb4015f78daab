-- ===== src/Config/Frame.antt =====
-- What the calls of the configuration's service keep, a run of the service keeps.
use v3_keeper.Base.{
  ℕ, ◌+◌, pure, if◌then◌else◌, Keeps-ext, leb, Option, none, some, Keeps, Keeps-then, Keeps-pure,
  Keeps-raise, OnEnv, keeps_rules,
}
use v3_keeper.Config.{
  Chain, Settings, OraclesCache, event_since_checkpoint, cold_config, warm_config, current_config,
  refresh, get_protocol_config,
}

-- The calls of the chain, the contract and IPFS keep `R`.
pub record Kept {E J P W : Type 0} (R : W → Type 0) (chain : Chain E J P W) : Type 0 where
  pub finalized_block : Keeps R chain.finalized_block
  pub get_config_update_event :
      (from_block to_block : ℕ) → Keeps R (chain.get_config_update_event from_block to_block)
  pub fetch_json : (event : E) → Keeps R (chain.fetch_json event)
  pub get_rewards_threshold : Keeps R chain.get_rewards_threshold
  pub build_protocol_config :
      (config : J) (threshold : ℕ) → Keeps R (chain.build_protocol_config config threshold)

module _ {E J P W : Type 0} {R : W → Type 0} (chain : Chain E J P W) (kept : Kept R chain)
    (settings : Settings) where
  event-Keeps : (to_block : ℕ) → Keeps R (event_since_checkpoint chain settings to_block)
  unfolding event_since_checkpoint
  event-Keeps to_block =
      Keeps-then (chain.get_config_update_event _ to_block) _
        (kept.get_config_update_event _ to_block)
        (elim [ some e ↦ Keeps-pure (some e) | none ↦ kept.get_config_update_event _ _ ])

  cold_config-Keeps : (to_block : ℕ) → Keeps R (cold_config chain settings to_block)
  unfolding cold_config
  cold_config-Keeps to_block =
      Keeps-then (event_since_checkpoint chain settings to_block) _ (event-Keeps to_block)
        (elim [ none ↦ Keeps-raise _ | some e ↦ kept.fetch_json e ])

  warm_config-Keeps :
      (checkpoint : ℕ) (config : J) (to_block : ℕ)
      → Keeps R (warm_config chain settings checkpoint config to_block)
  unfolding warm_config
  warm_config-Keeps checkpoint config to_block =
      Keeps-then (if leb (checkpoint + 1) to_block then _ else pure none) _
        (search (keeps_rules, Kept.get_config_update_event))
        (elim [ none ↦ Keeps-pure config | some e ↦ kept.fetch_json e ])

  current_config-Keeps :
      (cache : OraclesCache J) (to_block : ℕ)
      → Keeps R (current_config chain settings cache to_block)
  unfolding current_config
  current_config-Keeps cache to_block = from_checkpoint cache.checkpoint_block
    where
      from_checkpoint :
          (checkpoint : Option ℕ)
          → Keeps R (elim checkpoint [
            | none ↦ cold_config chain settings to_block
            | some c ↦ warm_config chain settings c cache.config to_block
          ])
      from_checkpoint none = cold_config-Keeps to_block
      from_checkpoint (some c) = warm_config-Keeps c cache.config to_block

  refresh-Keeps : Keeps (OnEnv {P = OraclesCache J} R) (refresh chain settings)
  unfolding refresh
  refresh-Keeps = search (keeps_rules, current_config-Keeps) depth 30

  -- What each call of the chain, the contract and IPFS keeps, a run keeps.
  pub get_protocol_config-Keeps :
      Keeps (OnEnv {P = OraclesCache J} R) (get_protocol_config chain settings)
  unfolding get_protocol_config
  get_protocol_config-Keeps =
      Keeps-then (refresh chain settings) _ refresh-Keeps (λ (config, threshold).
        Keeps-ext (chain.build_protocol_config config threshold)
          (kept.build_protocol_config config threshold))
