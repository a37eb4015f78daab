-- ===== src/ForceExit/Service.antt =====
-- force_exit/service.py: the positions and exit requests that are closed before they are liquidated. The order
-- of a Python `set`, which is arbitrary, is that of first appearance here.
pub mod Recheck
pub mod Selection
pub mod Timestamp
pub mod Frame
mod Examples
use v3_keeper.Base.{
  ℕ, ◌+◌, ltb, ◌==◌, not, Bool, true, false, length, filter, contains, if◌then◌else◌, List, [], ◌∷◌,
  ◌++◌, map, Option, none, some, ℤ, Text, text_eq, get, put, M, Sys, ext, with_mem, gets, modify,
  pure, raise, or_raise, ◌>>=◌, ◌>>◌, then_do, traverse, for_each, key_error,
}
use v3_keeper.State.{AppState, is_recent}
use v3_keeper.Graph.{
  HarvestParams, Vault, Codec, GraphNode, number, harvest_params, graph_get_vaults,
  check_for_graph_node_sync_to_block,
}
use v3_keeper.ForceExit.{
  ExitRequest, LeveragePosition, OsTokenExitRequest, is_fully_claimable, position_id, read_address,
}
use v3_keeper.ForceExit.Queries.{
  Floats, ForceGraph, graph_get_leverage_positions, graph_get_allocators,
  graph_ostoken_exit_requests, graph_get_leverage_position_owner,
}
use v3_keeper.ForceExit.Execution.{
  Contracts, can_force_enter_exit_queue, claim_exited_assets, force_enter_exit_queue,
}

-- The strategy registry, the escrow, and the owners of the strategies' proxies.
pub record Registry (W : Type 0) : Type 0 where
  pub borrow_ltv_percent : M W ℤ
  pub vault_ltv_percent : M W ℤ
  pub liq_threshold_percent : M W ℤ
  pub owner : Text → M W Text

pub record Chain (W : Type 0) : Type 0 where
  pub time : M W ℕ
  pub finalized_block : M W ℕ

-- `list(set(xs))`
pub distinct : List Text → List Text
distinct [] = []
distinct (x ∷ xs) = x ∷ filter (λ y. not (contains y (x ∷ []))) (distinct xs)

module _ {F : Type 0} where
  -- `{position.proxy: position for position in positions}`, onto what is there.
  pub by_proxy :
      List (LeveragePosition F)
      → List (Text × LeveragePosition F)
      → List (Text × LeveragePosition F)
  by_proxy [] positions = positions
  by_proxy (p ∷ ps) positions = by_proxy ps (put p.proxy p positions)

  -- The borrow positions, and then the vault positions that are not among them.
  unfoldable pub join_positions :
      List (LeveragePosition F) → List (LeveragePosition F) → List (LeveragePosition F)
  join_positions borrow_positions vault_positions =
      let ids = map position_id borrow_positions in
      borrow_positions ++ filter (λ p. not (contains (position_id p) ids)) vault_positions

module _ {W : Type 0} (codec : Codec) (contracts : Contracts W) (registry : Registry W)
    (block_number : ℕ) where
  -- `get_leverage_strategy_contract`, as the address of the contract.
  pub get_leverage_strategy_contract : Text → M W Text
  get_leverage_strategy_contract proxy = do owner ← registry.owner proxy; read_address codec owner

  -- The end of `handle_leverage_position`, from the second check on.
  pub recheck_and_enter : Text → Text → Text → Option HarvestParams → M W (Unit {0})
  recheck_and_enter strategy vault user params = do
    still ← can_force_enter_exit_queue contracts block_number strategy vault user params
    if still
        then (do
          tx_hash ← force_enter_exit_queue contracts block_number strategy vault user params
          pure tt)
        else pure tt

  -- If the claim is not confirmed, the position is left for the next run.
  abbrev pub after_claim : M W (Unit {0}) → Option Text → M W (Unit {0})
  after_claim rest none = pure tt
  after_claim rest (some tx_hash) = rest

  pub claim_and_enter :
      Text → Text → Text → Option ExitRequest → Option HarvestParams → M W (Unit {0})
  unfolding recheck_and_enter
  claim_and_enter strategy vault user none params = recheck_and_enter strategy vault user params
  claim_and_enter strategy vault user (some request) params =
      if is_fully_claimable request
      then (do
        tx_hash ← claim_exited_assets contracts block_number strategy vault user request params
        after_claim (recheck_and_enter strategy vault user params) tx_hash)
      else recheck_and_enter strategy vault user params

  unfoldable pub handle_leverage_position :
      {F : Type 0} → LeveragePosition F → Option HarvestParams → M W (Unit {0})
  unfolding get_leverage_strategy_contract claim_and_enter
  handle_leverage_position position params = do
    strategy ← get_leverage_strategy_contract position.proxy
    can ←
        can_force_enter_exit_queue contracts block_number strategy position.vault position.user
          params
    if can
        then claim_and_enter strategy position.vault position.user position.exit_request params
        else pure tt

module _ {F W : Type 0} (codec : Codec) (node : GraphNode W) (floats : Floats F)
    (graph : ForceGraph W) (contracts : Contracts W) (registry : Registry W) where
  pub fetch_leverage_positions : ℕ → M W (List (LeveragePosition F))
  unfolding by_proxy
  fetch_leverage_positions block_number = do
    borrow_percent ← registry.borrow_ltv_percent
    vault_percent ← registry.vault_ltv_percent
    all_positions ← graph_get_leverage_positions codec floats graph block_number
    let borrow_positions =
        filter (λ p. floats.gt p.borrow_ltv (floats.of_wad borrow_percent)) all_positions
    let proxy_to_position = by_proxy all_positions []
    allocators ←
        graph_get_allocators codec floats graph (floats.of_wad vault_percent)
          (map (λ e. e.0) proxy_to_position) block_number
    vault_positions ← traverse (λ a. or_raise key_error (get a proxy_to_position)) allocators
    pure (join_positions borrow_positions vault_positions)

  pub handle_position : ℕ → List (Text × Vault) → LeveragePosition F → M W (Unit {0})
  handle_position block_number graph_vaults position = do
    vault ← or_raise key_error (get position.vault graph_vaults)
    handle_leverage_position codec contracts registry block_number position
        (some (harvest_params vault))

  pub handle_leverage_positions : ℕ → M W (Unit {0})
  unfolding fetch_leverage_positions handle_position
  handle_leverage_positions block_number = do
    positions ← fetch_leverage_positions block_number
    if length positions == 0 then pure tt else do
      graph_vaults ←
          graph_get_vaults codec node (some (distinct (map (λ p. p.vault) positions))) none none
      for_each (handle_position block_number graph_vaults) positions

  -- `delta` is LTV_PERCENT_DELTA.
  pub fetch_ostoken_exit_requests : F → ℕ → M W (List OsTokenExitRequest)
  fetch_ostoken_exit_requests delta block_number = do
    percent ← registry.liq_threshold_percent
    let max_ltv = floats.of_wad percent
    let adjusted = floats.sub max_ltv (floats.mul max_ltv delta)
    requests ← graph_ostoken_exit_requests codec floats graph adjusted block_number
    pure (filter (λ r. is_fully_claimable r.exit_request) requests)

  pub handle_request : ℕ → List (Text × Vault) → OsTokenExitRequest → M W (Unit {0})
  handle_request block_number graph_vaults request = do
    position_owner ← graph_get_leverage_position_owner codec floats graph request.owner
    vault ← or_raise key_error (get request.vault graph_vaults)
    strategy ← get_leverage_strategy_contract codec contracts registry block_number request.owner
    tx_hash ←
        claim_exited_assets contracts block_number strategy request.vault position_owner
          request.exit_request (some (harvest_params vault))
    pure tt

  pub handle_ostoken_exit_requests : F → ℕ → M W (Unit {0})
  unfolding fetch_ostoken_exit_requests handle_request
  handle_ostoken_exit_requests delta block_number = do
    requests ← fetch_ostoken_exit_requests delta block_number
    if length requests == 0 then pure tt else do
      graph_vaults ←
          graph_get_vaults codec node (some (distinct (map (λ r. r.vault) requests))) none none
      for_each (handle_request block_number graph_vaults) requests

  abbrev pub set_force_exits : ℕ → AppState → AppState
  set_force_exits t state = record state { force_exits_updated_timestamp = some t }

  -- From the check of the time on.
  pub run_force_exits : Chain W → F → ℕ → M (Sys AppState W) (Unit {0})
  unfolding handle_leverage_positions handle_ostoken_exit_requests
  run_force_exits chain delta current_time = do
    block_number ← ext chain.finalized_block
    ext (check_for_graph_node_sync_to_block node (number block_number))
    ext (handle_leverage_positions block_number)
    ext (handle_ostoken_exit_requests delta block_number)
    modify (set_force_exits current_time)

  -- `interval` is FORCE_EXITS_UPDATE_INTERVAL.
  unfoldable pub process_force_exits : Chain W → F → ℕ → M (Sys AppState W) (Unit {0})
  unfolding run_force_exits
  process_force_exits chain delta interval = do
    current_time ← ext chain.time
    last ← gets (λ a. a.force_exits_updated_timestamp)
    if is_recent interval current_time last
        then pure tt
        else run_force_exits chain delta current_time
