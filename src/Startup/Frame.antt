-- ===== src/Startup/Frame.antt =====
-- What the calls of the clients keep, the checks of the environment keep.
use v3_keeper.Base.{
  ℕ, zero, suc, Bool, List, [], ◌∷◌, Text, M, is_exception, settle, Settled, value, failure,
  traverse, pure, raise, if◌then◌else◌, Keeps, Keeps-then, Keeps-settle, Keeps-traverse, Keeps-pure,
  Keeps-raise, Keeps-if, keeps_rules,
}
use v3_keeper.Config.{Oracle}
use v3_keeper.Graph.{GraphNode, check_for_graph_node_sync_to_block, tag}
use v3_keeper.Graph.Frame.{sync-Keeps}
use v3_keeper.Startup.{
  Clients, Environment, finalized, false_if_raised, finally_do, any_true, and_then, is_graph_used,
  is_price_updated, check_consensus_node, check_execution_node, check_ipfs_node, await_nodes,
  check_consensus_nodes, check_execution_nodes, check_l2_execution_nodes, check_ipfs_fetch_nodes,
  check_keeper_balance, check_oracles, check_storage, check_graph, check_waiting_time, check_price,
  startup_checks,
}

-- The calls of the clients keep `R`.
pub record ClientsKept {W : Type 0} (R : W → Type 0) (clients : Clients W) : Type 0 where
  pub is_syncing : (e : Text) → Keeps R (clients.is_syncing e)
  pub get_finality_checkpoint : (e : Text) → Keeps R (clients.get_finality_checkpoint e)
  pub disconnect_consensus : (e : Text) → Keeps R (clients.disconnect_consensus e)
  pub syncing : (e : Text) → Keeps R (clients.syncing e)
  pub block_number : (e : Text) → Keeps R (clients.block_number e)
  pub disconnect_execution : (e : Text) → Keeps R (clients.disconnect_execution e)
  pub fetch_example : (e : Text) → Keeps R (clients.fetch_example e)
  pub fetch_oracle : (e : Text) → Keeps R (clients.fetch_oracle e)
  pub get_keeper_balance : Keeps R clients.get_keeper_balance
  pub sleep : (n : ℕ) → Keeps R (clients.sleep n)

module _ {W : Type 0} {R : W → Type 0} where
  Keeps-false_if_raised : (action : M W Bool) → Keeps R action → Keeps R (false_if_raised action)
  Keeps-false_if_raised action h = Keeps-then (settle action) _ (Keeps-settle action h) (elim [
    | value answer ↦ Keeps-pure answer
    | failure e ↦ Keeps-if (is_exception e) _ _ (Keeps-pure _) (Keeps-raise e)
  ])

  pub Keeps-finally_do :
      {A : Type 0} (action : M W A) (cleanup : M W (Unit {0}))
      → Keeps R action
      → Keeps R cleanup
      → Keeps R (finally_do action cleanup)
  Keeps-finally_do {A} action cleanup h k =
      Keeps-then (settle action) _ (Keeps-settle action h)
        (λ result. Keeps-then cleanup _ k (λ u. at_end result))
    where
      at_end :
          (result : Settled A)
          → Keeps R
              (elim result as (λ _. M W A) [ value answer ↦ pure answer | failure e ↦ raise e ])
      at_end (value answer) = Keeps-pure answer
      at_end (failure e) = Keeps-raise e

  Keeps-and_then :
      (action rest : M W Bool) → Keeps R action → Keeps R rest → Keeps R (and_then action rest)
  Keeps-and_then action rest h k =
      Keeps-then action _ h (λ ended. Keeps-if ended _ _ k (Keeps-pure _))

ruleset checks_rules = (keeps_rules, Keeps-false_if_raised, Keeps-finally_do, Keeps-and_then)

module _ {W : Type 0} {R : W → Type 0} (clients : Clients W)
    (clients_kept : ClientsKept R clients) where
  consensus-Keeps : (e : Text) → Keeps R (check_consensus_node clients e)
  unfolding check_consensus_node
  consensus-Keeps e =
      search
        (
          checks_rules, ClientsKept.is_syncing, ClientsKept.get_finality_checkpoint,
          ClientsKept.disconnect_consensus,
        )
        depth 20

  execution-Keeps : (e : Text) → Keeps R (check_execution_node clients e)
  unfolding check_execution_node
  execution-Keeps e =
      search
        (
          checks_rules, ClientsKept.syncing, ClientsKept.block_number,
          ClientsKept.disconnect_execution,
        )
        depth 20

  ipfs-Keeps : (e : Text) → Keeps R (check_ipfs_node clients e)
  unfolding check_ipfs_node
  ipfs-Keeps e = search (checks_rules, ClientsKept.fetch_example) depth 20

  await-Keeps :
      (fuel : ℕ) (check : Text → M W Bool) (endpoints : List Text)
      → ((e : Text) → Keeps R (check e))
      → Keeps R (await_nodes clients fuel check endpoints)
  unfolding await_nodes
  await-Keeps zero check endpoints h = Keeps-pure _
  await-Keeps (suc fuel) check endpoints h =
      Keeps-then (traverse check endpoints) _ (Keeps-traverse check endpoints h) (λ ready.
        Keeps-if (any_true ready) _ _ (Keeps-pure _) (
          Keeps-then (clients.sleep 10) _ (clients_kept.sleep 10)
            (λ u. await-Keeps fuel check endpoints h)))

  consensus_nodes-Keeps :
      (fuel : ℕ) (endpoints : List Text) → Keeps R (check_consensus_nodes clients fuel endpoints)
  unfolding check_consensus_nodes
  consensus_nodes-Keeps fuel endpoints = await-Keeps fuel _ endpoints consensus-Keeps

  execution_nodes-Keeps :
      (fuel : ℕ) (endpoints : List Text) → Keeps R (check_execution_nodes clients fuel endpoints)
  unfolding check_execution_nodes
  execution_nodes-Keeps fuel endpoints = await-Keeps fuel _ endpoints execution-Keeps

  l2_nodes-Keeps :
      (fuel : ℕ) (endpoints : List Text) → Keeps R (check_l2_execution_nodes clients fuel endpoints)
  unfolding check_l2_execution_nodes
  l2_nodes-Keeps fuel [] = Keeps-pure _
  l2_nodes-Keeps fuel (e ∷ endpoints) = await-Keeps fuel _ (e ∷ endpoints) execution-Keeps

  ipfs_nodes-Keeps :
      (fuel : ℕ) (endpoints : List Text) → Keeps R (check_ipfs_fetch_nodes clients fuel endpoints)
  unfolding check_ipfs_fetch_nodes
  ipfs_nodes-Keeps fuel [] = Keeps-raise _
  ipfs_nodes-Keeps fuel (e ∷ endpoints) = await-Keeps fuel _ (e ∷ endpoints) ipfs-Keeps

  balance-Keeps : (n : ℕ) → Keeps R (check_keeper_balance clients n)
  unfolding check_keeper_balance
  balance-Keeps n = search keeps_rules depth 20

  oracles-Keeps : (endpoints : List Text) → Keeps R (check_oracles clients endpoints)
  unfolding check_oracles
  oracles-Keeps endpoints = search (keeps_rules, ClientsKept.fetch_oracle) depth 20

  module _ (node : GraphNode W) (node_kept : v3_keeper.Graph.Frame.Kept R node)
      (oracles : M W (List Oracle)) (oracles_kept : Keeps R oracles) (env : Environment) where
    storage-Keeps : (fuel : ℕ) → Keeps R (check_storage clients node oracles env fuel)
    unfolding check_storage
    storage-Keeps fuel = search (checks_rules, ipfs_nodes-Keeps, oracles-Keeps) depth 20

    graph-Keeps : (fuel : ℕ) → Keeps R (check_graph clients node oracles env fuel)
    unfolding check_graph
    graph-Keeps fuel =
        Keeps-then
          (if is_graph_used env
            then check_for_graph_node_sync_to_block node (tag finalized)
            else pure tt)
          _
          (Keeps-if (is_graph_used env) _ _ (sync-Keeps node node_kept (tag finalized))
            (Keeps-pure tt))
          (λ u. storage-Keeps fuel)

    waiting-Keeps : Keeps R (check_waiting_time clients node oracles env)
    waiting-Keeps = search keeps_rules

    price-Keeps : (fuel : ℕ) → Keeps R (check_price clients node oracles env fuel)
    unfolding check_price
    price-Keeps fuel =
        Keeps-if (is_price_updated env) _ _
          (Keeps-and_then _ _ (l2_nodes-Keeps fuel env.l2_execution_endpoints) waiting-Keeps)
          (Keeps-pure _)

    -- What each call of the clients and of the graph keeps, the checks keep.
    pub startup_checks-Keeps : (fuel : ℕ) → Keeps R (startup_checks clients node oracles env fuel)
    unfolding startup_checks
    startup_checks-Keeps fuel =
        search
          (
            checks_rules, balance-Keeps, consensus_nodes-Keeps, execution_nodes-Keeps, price-Keeps,
            graph-Keeps,
          )
          depth 20
