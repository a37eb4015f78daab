-- ===== src/Startup.antt =====
-- common/startup_check.py and common/execution.py: what is checked before the main loop starts. The clients are
-- parameters, and an endpoint stands for the client that is made for it.
pub mod Nodes
pub mod Settings
pub mod Frame
mod Examples
use v3_keeper.Base.{
  ℕ, zero, suc, leb, ltb, ◌==◌, Bool, true, false, not, ◌&&◌, ◌||◌, length, if◌then◌else◌, List, [],
  ◌∷◌, ◌++◌, Text, M, Exn, is_exception, settle, settle_task, Settled, value, failure, pure, raise,
  ◌>>=◌, ◌>>◌, then_do, traverse, gather, value_error,
}
use v3_keeper.Config.{Oracle}
use v3_keeper.Graph.{GraphNode, tag, check_for_graph_node_sync_to_block}

-- What `eth.syncing` of web3 answers: `False`, or the status of a sync that runs, as a dictionary.
pub data Syncing : Type 0 where
  flag : Bool → Syncing
  status : ℕ → ℕ → Syncing

-- `syncing is True`
abbrev pub is_true : Syncing → Bool
is_true (flag b) = b
is_true (status current highest) = false

-- The consensus client's `is_syncing` and finality checkpoint, and the execution client.
pub record Clients (W : Type 0) : Type 0 where
  pub is_syncing : Text → M W Bool
  pub get_finality_checkpoint : Text → M W (Unit {0})
  pub disconnect_consensus : Text → M W (Unit {0})
  pub syncing : Text → M W Syncing
  pub block_number : Text → M W ℕ
  pub disconnect_execution : Text → M W (Unit {0})
  pub fetch_example : Text → M W (Unit {0})
  pub fetch_oracle : Text → M W (Unit {0})
  pub get_keeper_balance : M W ℕ
  pub sleep : ℕ → M W (Unit {0})

-- The settings that the checks read; `seconds` is the pause between two rounds.
pub record Environment : Type 0 where
  pub consensus_endpoints : List Text
  pub execution_endpoints : List Text
  pub l2_execution_endpoints : List Text
  pub ipfs_fetch_endpoints : List Text
  pub price_supported : Bool
  pub force_exits_supported : Bool
  pub skip_price : Bool
  pub skip_force_exits : Bool
  pub skip_update_ltv : Bool
  pub price_max_waiting_time : ℕ
  pub price_update_interval : ℕ
  pub keeper_min_balance : ℕ

abbrev pub finalized : Text
finalized = b'f' ∷ b'i' ∷ b'n' ∷ b'a' ∷ b'l' ∷ b'i' ∷ b'z' ∷ b'e' ∷ b'd' ∷ []

-- `except Exception: return False`
abbrev pub false_if_raised : {W : Type 0} → M W Bool → M W Bool
false_if_raised action = do
  result ← settle action
  elim result [
    | value answer ↦ pure answer
    | failure e ↦ if is_exception e then pure false else raise e
  ]

-- `try: action finally: cleanup`; an exception of the cleanup takes the place of the action's.
abbrev pub finally_do : {A W : Type 0} → M W A → M W (Unit {0}) → M W A
finally_do action cleanup = do
  result ← settle action
  cleanup
  elim result [ value answer ↦ pure answer | failure e ↦ raise e ]

-- `any(xs)`
abbrev pub any_true : List Bool → Bool
any_true [] = false
any_true (b ∷ bs) = b || any_true bs

module _ {W : Type 0} (clients : Clients W) where
  unfoldable pub check_consensus_node : Text → M W Bool
  check_consensus_node endpoint =
      finally_do
        (false_if_raised (do
          behind ← clients.is_syncing endpoint
          if behind then pure false else (do clients.get_finality_checkpoint endpoint; pure true)))
        (clients.disconnect_consensus endpoint)

  unfoldable pub check_execution_node : Text → M W Bool
  check_execution_node endpoint =
      finally_do
        (false_if_raised (do
          syncing ← clients.syncing endpoint
          if is_true syncing then pure false else (do
            block_number ← clients.block_number endpoint
            pure (not (block_number == 0)))))
        (clients.disconnect_execution endpoint)

  -- An entry of `healthy_ipfs_endpoints`.
  unfoldable pub check_ipfs_node : Text → M W Bool
  check_ipfs_node endpoint = false_if_raised (do clients.fetch_example endpoint; pure true)

  -- The `while` loop of the four checks: all endpoints in turn until one of them is ready. `false` says that the
  -- fuel, one for each round, ran out.
  unfoldable pub await_nodes : ℕ → (Text → M W Bool) → List Text → M W Bool
  await_nodes zero check endpoints = pure false
  await_nodes (suc fuel) check endpoints =
      let rest = await_nodes fuel check endpoints in
      do
        nodes_ready ← traverse check endpoints
        if any_true nodes_ready then pure true else (do clients.sleep 10; rest)

  unfoldable pub check_consensus_nodes : ℕ → List Text → M W Bool
  unfolding check_consensus_node await_nodes
  check_consensus_nodes fuel endpoints = await_nodes fuel check_consensus_node endpoints

  unfoldable pub check_execution_nodes : ℕ → List Text → M W Bool
  unfolding check_execution_node await_nodes
  check_execution_nodes fuel endpoints = await_nodes fuel check_execution_node endpoints

  unfoldable pub check_l2_execution_nodes : ℕ → List Text → M W Bool
  unfolding check_execution_node await_nodes
  check_l2_execution_nodes fuel [] = pure true
  check_l2_execution_nodes fuel (e ∷ endpoints) =
      await_nodes fuel check_execution_node (e ∷ endpoints)

  unfoldable pub check_ipfs_fetch_nodes : ℕ → List Text → M W Bool
  unfolding check_ipfs_node await_nodes
  check_ipfs_fetch_nodes fuel [] = raise (value_error "IPFS_FETCH_ENDPOINTS is empty")
  check_ipfs_fetch_nodes fuel (e ∷ endpoints) = await_nodes fuel check_ipfs_node (e ∷ endpoints)

  -- The answer only decides what is logged.
  pub check_keeper_balance : ℕ → M W (Unit {0})
  check_keeper_balance keeper_min_balance =
      if keeper_min_balance == 0
      then pure tt
      else (do balance ← clients.get_keeper_balance; pure tt)

  -- The answers only decide what is logged.
  pub check_oracles : List Text → M W (Unit {0})
  check_oracles endpoints = do
    results ← gather (λ endpoint. settle_task (clients.fetch_oracle endpoint)) endpoints
    pure tt

-- What comes after a loop, unless its fuel ran out.
abbrev pub and_then : {W : Type 0} → M W Bool → M W Bool → M W Bool
and_then action rest = do ended ← action; if ended then rest else pure false

abbrev pub is_price_updated : Environment → Bool
is_price_updated env = env.price_supported && not env.skip_price

abbrev pub is_graph_used : Environment → Bool
is_graph_used env =
    if env.force_exits_supported && not env.skip_force_exits then true else not env.skip_update_ltv

abbrev pub endpoints_of : List Oracle → List Text
endpoints_of [] = []
endpoints_of (o ∷ oracles) = o.endpoints ++ endpoints_of oracles

module _ {W : Type 0} (clients : Clients W) (node : GraphNode W) (oracles : M W (List Oracle))
    (env : Environment) where
  -- From the check of the ipfs nodes on.
  pub check_storage : ℕ → M W Bool
  unfolding check_ipfs_fetch_nodes check_oracles
  check_storage fuel =
      and_then (check_ipfs_fetch_nodes clients fuel env.ipfs_fetch_endpoints)
        (do found ← oracles; check_oracles clients (endpoints_of found); pure true)

  -- From the check of the graph node on.
  pub check_graph : ℕ → M W Bool
  unfolding check_storage
  check_graph fuel = do
    if is_graph_used env then check_for_graph_node_sync_to_block node (tag finalized) else pure tt
    check_storage fuel

  -- `PRICE_MAX_WAITING_TIME >= PRICE_UPDATE_INTERVAL`
  abbrev pub check_waiting_time : M W Bool
  check_waiting_time =
      if leb env.price_update_interval env.price_max_waiting_time
      then raise (value_error "PRICE_MAX_WAITING_TIME should be less than PRICE_UPDATE_INTERVAL")
      else pure true

  pub check_price : ℕ → M W Bool
  unfolding check_l2_execution_nodes
  check_price fuel =
      if is_price_updated env
      then and_then (check_l2_execution_nodes clients fuel env.l2_execution_endpoints)
          check_waiting_time
      else pure true

  unfoldable pub startup_checks : ℕ → M W Bool
  unfolding check_keeper_balance check_consensus_nodes check_execution_nodes check_price check_graph
  startup_checks fuel = do
    check_keeper_balance clients env.keeper_min_balance
    and_then (check_consensus_nodes clients fuel env.consensus_endpoints) (
        and_then (check_execution_nodes clients fuel env.execution_endpoints)
          (and_then (check_price fuel) (check_graph fuel)))
