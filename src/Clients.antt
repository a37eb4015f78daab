-- ===== src/Clients.antt =====
-- common/clients.py: what is done with the clients before the process starts and when it ends, and the settings of the
-- gas manager. The clients themselves are parameters.
use v3_keeper.Base.{ℤ, M, ◌>>◌}
use v3_keeper.Environ.{Settings}

-- The calls of the three clients; the first two are of the execution client.
pub record Handles (W : Type 0) : Type 0 where
  pub inject_signer : M W (Unit {0})
  pub set_default_account : M W (Unit {0})
  pub setup_graph : M W (Unit {0})
  pub disconnect_consensus : M W (Unit {0})
  pub disconnect_execution : M W (Unit {0})
  pub disconnect_graph : M W (Unit {0})

module _ {W : Type 0} (handles : Handles W) where
  pub setup_execution_client : M W (Unit {0})
  setup_execution_client = do handles.inject_signer; handles.set_default_account

  unfoldable pub setup_clients : M W (Unit {0})
  unfolding setup_execution_client
  setup_clients = do setup_execution_client; handles.setup_graph

  unfoldable pub close_clients : M W (Unit {0})
  close_clients = do
    handles.disconnect_consensus
    handles.disconnect_execution
    handles.disconnect_graph

-- The arguments of `GasManager` beside the execution client.
pub record GasManager (F : Type 0) : Type 0 where
  pub max_fee_per_gas : ℤ
  pub priority_fee_num_blocks : ℤ
  pub priority_fee_percentile : F
  pub min_effective_priority_fee_per_gas : ℤ

-- `gwei` is `Web3.to_wei` of an amount of gwei, `min_effective` the field of the base network's configuration.
pub build_gas_manager : {B F : Type 0} → (ℤ → ℤ) → (B → ℤ) → Settings B F → GasManager F
build_gas_manager gwei min_effective settings = record {
  max_fee_per_gas = gwei settings.common.max_fee_per_gas_gwei;
  priority_fee_num_blocks = settings.common.priority_fee_num_blocks;
  priority_fee_percentile = settings.common.priority_fee_percentile;
  min_effective_priority_fee_per_gas = min_effective settings.network_config.base;
}
