-- ===== src/ForceExit/Service/Frame.antt =====
-- What the calls of the force exits' service keep, a run of the service keeps.
use v3_keeper.Base.{ℕ, List, Option, none, some, Text, M, Keeps, OnEnv, keeps_rules}
use v3_keeper.State.{AppState}
use v3_keeper.Graph.{HarvestParams, Vault, Codec, GraphNode}
use v3_keeper.Graph.Frame.{graph_get_vaults-Keeps, sync-Keeps}
use v3_keeper.ForceExit.{ExitRequest, LeveragePosition, OsTokenExitRequest}
use v3_keeper.ForceExit.Queries.{Floats, ForceGraph}
use v3_keeper.ForceExit.Queries.Frame.{
  GraphKept, positions-Keeps, allocators-Keeps, ostoken_requests-Keeps, owner-Keeps,
}
use v3_keeper.ForceExit.Execution.{Contracts}
use v3_keeper.ForceExit.Execution.Frame.{ContractsKept, can_enter-Keeps, claim-Keeps, enter-Keeps}
use v3_keeper.ForceExit.Service.{
  Registry, Chain, get_leverage_strategy_contract, recheck_and_enter, after_claim, claim_and_enter,
  handle_leverage_position, fetch_leverage_positions, handle_position, handle_leverage_positions,
  fetch_ostoken_exit_requests, handle_request, handle_ostoken_exit_requests, run_force_exits,
  process_force_exits,
}

-- The reads of the registry keep `R`.
pub record RegistryKept {W : Type 0} (R : W → Type 0) (registry : Registry W) : Type 0 where
  pub borrow_ltv_percent : Keeps R registry.borrow_ltv_percent
  pub vault_ltv_percent : Keeps R registry.vault_ltv_percent
  pub liq_threshold_percent : Keeps R registry.liq_threshold_percent
  pub owner : (proxy : Text) → Keeps R (registry.owner proxy)

-- Those of the clock and of the node do.
pub record ChainKept {W : Type 0} (R : W → Type 0) (chain : Chain W) : Type 0 where
  pub time : Keeps R chain.time
  pub finalized_block : Keeps R chain.finalized_block

module _ {W : Type 0} {R : W → Type 0} (codec : Codec) (contracts : Contracts W)
    (contracts_kept : ContractsKept R contracts) (registry : Registry W)
    (registry_kept : RegistryKept R registry) (block_number : ℕ) where
  strategy-Keeps :
      (proxy : Text)
      → Keeps R (get_leverage_strategy_contract codec contracts registry block_number proxy)
  unfolding get_leverage_strategy_contract
  strategy-Keeps proxy = search (keeps_rules, RegistryKept.owner)

  recheck-Keeps :
      (strategy vault user : Text) (params : Option HarvestParams)
      → Keeps R (recheck_and_enter codec contracts registry block_number strategy vault user params)
  unfolding recheck_and_enter
  recheck-Keeps strategy vault user params =
      search (keeps_rules, can_enter-Keeps, enter-Keeps) depth 20

  after_claim-Keeps :
      (rest : M W (Unit {0})) (hash : Option Text)
      → Keeps R rest
      → Keeps R (after_claim codec contracts registry block_number rest hash)
  after_claim-Keeps rest none h = search keeps_rules
  after_claim-Keeps rest (some hash) h = h

  claim_and_enter-Keeps :
      (strategy vault user : Text) (request : Option ExitRequest) (params : Option HarvestParams)
      → Keeps R
          (claim_and_enter codec contracts registry block_number strategy vault user request params)
  unfolding claim_and_enter
  claim_and_enter-Keeps strategy vault user none params = recheck-Keeps strategy vault user params
  claim_and_enter-Keeps strategy vault user (some request) params =
      search (keeps_rules, claim-Keeps, recheck-Keeps, after_claim-Keeps) depth 20

  handle-Keeps :
      {F : Type 0} (position : LeveragePosition F) (params : Option HarvestParams)
      → Keeps R (handle_leverage_position codec contracts registry block_number position params)
  unfolding handle_leverage_position
  handle-Keeps position params =
      search (keeps_rules, strategy-Keeps, can_enter-Keeps, claim_and_enter-Keeps) depth 20

module _ {F W : Type 0} {R : W → Type 0} (codec : Codec) (node : GraphNode W)
    (node_kept : v3_keeper.Graph.Frame.Kept R node) (floats : Floats F) (graph : ForceGraph W)
    (graph_kept : GraphKept R graph) (contracts : Contracts W)
    (contracts_kept : ContractsKept R contracts) (registry : Registry W)
    (registry_kept : RegistryKept R registry) where
  fetch-Keeps :
      (block_number : ℕ)
      → Keeps R (fetch_leverage_positions codec node floats graph contracts registry block_number)
  unfolding fetch_leverage_positions
  fetch-Keeps block_number = search (keeps_rules, positions-Keeps, allocators-Keeps) depth 30

  position-Keeps :
      (block_number : ℕ) (vaults : List (Text × Vault)) (position : LeveragePosition F)
      → Keeps R
          (handle_position codec node floats graph contracts registry block_number vaults position)
  unfolding handle_position
  position-Keeps block_number vaults position = search (keeps_rules, handle-Keeps) depth 20

  positions_handled-Keeps :
      (block_number : ℕ)
      → Keeps R (handle_leverage_positions codec node floats graph contracts registry block_number)
  unfolding handle_leverage_positions
  positions_handled-Keeps block_number =
      search (keeps_rules, fetch-Keeps, graph_get_vaults-Keeps, position-Keeps) depth 20

  requests-Keeps :
      (delta : F) (block_number : ℕ)
      → Keeps R (
          fetch_ostoken_exit_requests codec node floats graph contracts registry delta block_number)
  unfolding fetch_ostoken_exit_requests
  requests-Keeps delta block_number = search (keeps_rules, ostoken_requests-Keeps) depth 20

  request-Keeps :
      (block_number : ℕ) (vaults : List (Text × Vault)) (request : OsTokenExitRequest)
      → Keeps R
          (handle_request codec node floats graph contracts registry block_number vaults request)
  unfolding handle_request
  request-Keeps block_number vaults request =
      search (keeps_rules, owner-Keeps, strategy-Keeps, claim-Keeps) depth 20

  requests_handled-Keeps :
      (delta : F) (block_number : ℕ)
      → Keeps R (
          handle_ostoken_exit_requests codec node floats graph contracts registry delta
            block_number)
  unfolding handle_ostoken_exit_requests
  requests_handled-Keeps delta block_number =
      search (keeps_rules, requests-Keeps, graph_get_vaults-Keeps, request-Keeps) depth 20

  module _ (chain : Chain W) (chain_kept : ChainKept R chain) where
    run-Keeps :
        (delta : F) (current_time : ℕ)
        → Keeps
            (OnEnv {P = AppState} R)
            (run_force_exits codec node floats graph contracts registry chain delta current_time)
    unfolding run_force_exits
    run-Keeps delta current_time =
        search (keeps_rules, sync-Keeps, positions_handled-Keeps, requests_handled-Keeps) depth 30

    -- What each call of the graph, the contracts, the node and the clock keeps, a run keeps.
    pub process_force_exits-Keeps :
        (delta : F) (interval : ℕ)
        → Keeps
            (OnEnv {P = AppState} R)
            (process_force_exits codec node floats graph contracts registry chain delta interval)
    unfolding process_force_exits
    process_force_exits-Keeps delta interval = search (keeps_rules, run-Keeps) depth 20
