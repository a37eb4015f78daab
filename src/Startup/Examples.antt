-- ===== src/Startup/Examples.antt =====
-- An execution node with no block until `w` pauses have passed.
use v3_keeper.Base.{
  ℕ, ◌-◌, ◌≤◌, ◌<◌, ◌==◌, ◌≡◌, refl, Bool, true, false, not, List, [], ◌∷◌, Text, done, arith,
}
use v3_keeper.Graph.{GraphNode, check_for_graph_node_sync_to_block}
use v3_keeper.Startup.{
  Clients, Environment, Syncing, flag, check_execution_node, await_nodes, startup_checks,
}
use v3_keeper.Startup.Nodes.{await_nodes_up}
use v3_keeper.Startup.Settings.{startup_checks-waiting_time}

abbrev clients : Syncing → Clients ℕ
clients answer = record {
  is_syncing = λ e w. done false w;
  get_finality_checkpoint = λ e w. done tt w;
  disconnect_consensus = λ e w. done tt w;
  syncing = λ e w. done answer w;
  block_number = λ e w. done (1 - w) w;
  disconnect_execution = λ e w. done tt w;
  fetch_example = λ e w. done tt w;
  fetch_oracle = λ e w. done tt w;
  get_keeper_balance = λ w. done 5 w;
  sleep = λ n w. done tt (w - 1);
}

abbrev endpoints : List Text
endpoints = (1 ∷ []) ∷ []

abbrev env : Environment
env = record {
  consensus_endpoints = endpoints;
  execution_endpoints = endpoints;
  l2_execution_endpoints = endpoints;
  ipfs_fetch_endpoints = endpoints;
  price_supported = true;
  force_exits_supported = true;
  skip_price = false;
  skip_force_exits = false;
  skip_update_ltv = false;
  price_max_waiting_time = 3;
  price_update_interval = 9;
  keeper_min_balance = 7;
}

abbrev node : GraphNode ℕ
node = record {
  fetch_vaults = λ query w. done [] w;
  latest_block = λ w. done 7 w;
  block_at = λ t w. done 5 w;
}

answers :
    (e : Text) (w : ℕ)
    → (b : Bool) × (v : ℕ) × (check_execution_node (clients (flag false)) e w ≡ done b v) × (v ≤ w)
unfolding check_execution_node
answers e w = (not ((1 - w) == 0), w, refl, omega arith)

up :
    (v : ℕ)
    → v ≡ 0
    → (u : ℕ) × (check_execution_node (clients (flag false)) (1 ∷ []) v ≡ done true u)
unfolding check_execution_node
up v h = (v, rw h refl)

await_nodes_up_example :
    (v : ℕ) × (await_nodes
        (clients (flag false))
        4
        (check_execution_node (clients (flag false)))
        endpoints
        3
      ≡ done true v)
await_nodes_up_example =
    await_nodes_up (clients (flag false)) (check_execution_node (clients (flag false))) (λ w. w)
      answers (λ w. (w - 1, refl, omega arith)) (1 ∷ []) [] 3 3 up (omega arith)

passed : startup_checks (clients (flag false)) node (λ w. done [] w) env 4 3 ≡ done true 0
unfolding startup_checks check_for_graph_node_sync_to_block
passed = refl

startup_checks-waiting_time_example : env.price_max_waiting_time < env.price_update_interval
startup_checks-waiting_time_example =
    startup_checks-waiting_time (clients (flag false)) node (λ w. done [] w) env 4 3 0 refl passed
