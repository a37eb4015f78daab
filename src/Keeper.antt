-- ===== src/Keeper.antt =====
-- main.py: the loop that runs the services. The tasks of `asyncio.gather` run one after the other, and the times
-- are whole numbers of some unit.
pub mod Rounds
pub mod Isolation
pub mod Steps
pub mod Termination
pub mod Wired
pub mod Frame
mod Examples
use v3_keeper.Base.{
  ℕ, zero, suc, ◌+◌, ◌-◌, ◌==◌, Bool, true, false, not, ◌&&◌, length, if◌then◌else◌, List, [], ◌∷◌,
  ◌++◌, Option, Text, M, Sys, ext, with_mem, is_exception, settle, settle_task, Settled, value,
  failure, pure, raise, ◌>>=◌, ◌>>◌, then_do, gather, Outcome, done, raised,
}
use v3_keeper.State.{AppState}
use v3_keeper.Graph.{Codec, GraphNode}
use v3_keeper.Config.{Oracle, OraclesCache, get_protocol_config}
use v3_keeper.Rewards.{RewardsCache}
use v3_keeper.Rewards.Service.{process_rewards}
use v3_keeper.Distributor.{process_distributor_rewards}
use v3_keeper.Price.{process_layer_two_oseth_price}
use v3_keeper.Exits.{process_exits}
use v3_keeper.Ltv.{process_vault_max_ltv_user}
use v3_keeper.ForceExit.Queries.{Floats, ForceGraph}
use v3_keeper.ForceExit.Service.{process_force_exits}
use v3_keeper.Startup.{Clients, finally_do, startup_checks}

-- The fields of the protocol configuration that the services use.
pub record ProtocolConfig : Type 0 where
  pub oracles : List Oracle
  pub rewards_threshold : ℕ
  pub exit_signature_recover_threshold : ℕ

-- What the process remembers: two caches and the application's state.
pub record Memory (J : Type 0) : Type 0 where
  pub oracles_cache : OraclesCache J
  pub rewards_cache : RewardsCache
  pub app_state : AppState

-- The settings, and the sizes and intervals that the services take.
pub record Settings (F : Type 0) : Type 0 where
  pub config : v3_keeper.Config.Settings
  pub price : v3_keeper.Price.Settings
  pub startup : v3_keeper.Startup.Environment
  pub skip_distributor_rewards : Bool
  pub validators_fetch_chunk_size : ℕ
  pub ltv_percent_delta : F
  pub force_exits_update_interval : ℕ
  pub ltv_update_interval : ℕ
  pub time_per_block : ℕ

-- What the services call, and the clients, the metrics and the interrupt handler of main.py.
pub record Outside (E F G J R W : Type 0) : Type 0 where
  pub chain : v3_keeper.Config.Chain E J ProtocolConfig W
  pub rewards_http : v3_keeper.Rewards.Fetch.Http W
  pub keeper_contract : v3_keeper.Rewards.Service.Keeper W
  pub to_int : Text → ℕ
  pub distributor_fetch : Text → M W (Option v3_keeper.Distributor.Answer)
  pub distributor_contract : v3_keeper.Distributor.Distributor W
  pub feed : v3_keeper.Price.Feed R W
  pub exits_http : v3_keeper.Exits.Http W
  pub consensus : v3_keeper.Exits.Consensus W
  pub curve : v3_keeper.Exits.Curve G
  pub codec : Codec
  pub graph_node : GraphNode W
  pub floats : Floats F
  pub force_graph : ForceGraph W
  pub force_contracts : v3_keeper.ForceExit.Execution.Contracts W
  pub registry : v3_keeper.ForceExit.Service.Registry W
  pub force_chain : v3_keeper.ForceExit.Service.Chain W
  pub ltv_graph : v3_keeper.Ltv.LtvGraph W
  pub tracker : v3_keeper.Ltv.Tracker W
  pub ltv_chain : v3_keeper.Ltv.Chain W
  pub clients : Clients W
  pub setup_clients : M W (Unit {0})
  pub close_clients : M W (Unit {0})
  pub metrics_server : M W (Unit {0})
  pub interrupted : M W Bool
  pub time : M W ℕ
  pub handler_sleep : ℕ → M W (Unit {0})
  pub set_balance : M W (Unit {0})

-- An action on a part of the memory.
abbrev pub put_back : {P Q W A : Type 0} → (P → Q) → Outcome (Sys P W) A → Outcome (Sys Q W) A
put_back put (done a s) = done a (record { mem = put s.mem; env = s.env })
put_back put (raised e s) = raised e (record { mem = put s.mem; env = s.env })

abbrev pub on_part : {P Q W A : Type 0} → (Q → P) → (P → Q → Q) → M (Sys P W) A → M (Sys Q W) A
on_part get put action s =
    put_back (λ p. put p s.mem) (action (record { mem = get s.mem; env = s.env }))

-- The calls of the world, beside the memory.
abbrev pub lift_clients : {P W : Type 0} → Clients W → Clients (Sys P W)
lift_clients c = record {
  is_syncing = λ e. ext (c.is_syncing e);
  get_finality_checkpoint = λ e. ext (c.get_finality_checkpoint e);
  disconnect_consensus = λ e. ext (c.disconnect_consensus e);
  syncing = λ e. ext (c.syncing e);
  block_number = λ e. ext (c.block_number e);
  disconnect_execution = λ e. ext (c.disconnect_execution e);
  fetch_example = λ e. ext (c.fetch_example e);
  fetch_oracle = λ e. ext (c.fetch_oracle e);
  get_keeper_balance = ext c.get_keeper_balance;
  sleep = λ n. ext (c.sleep n);
}

abbrev pub lift_node : {P W : Type 0} → GraphNode W → GraphNode (Sys P W)
lift_node n = record {
  fetch_vaults = λ query. ext (n.fetch_vaults query);
  latest_block = ext n.latest_block;
  block_at = λ t. ext (n.block_at t);
}

-- `[task]` if the task is run.
abbrev pub when : {A : Type 0} → Bool → A → List A
when condition task = if condition then task ∷ [] else []

module _ {E F G J R W : Type 0} (outside : Outside E F G J R W) (settings : Settings F) where
  abbrev pub Task : Type 0
  Task = M (Sys (Memory J) W) (Unit {0})

  pub config_task : M (Sys (Memory J) W) ProtocolConfig
  config_task =
      on_part (λ m. m.oracles_cache) (λ c m. record m { oracles_cache = c })
        (get_protocol_config outside.chain settings.config)

  pub rewards_task : ProtocolConfig → Task
  rewards_task protocol_config =
      on_part (λ m. m.rewards_cache) (λ c m. record m { rewards_cache = c })
        (process_rewards outside.rewards_http outside.keeper_contract outside.to_int (record {
          oracles = protocol_config.oracles;
          rewards_threshold = protocol_config.rewards_threshold;
        }))

  pub exits_task : ProtocolConfig → Task
  exits_task protocol_config = ext (
      process_exits outside.curve outside.consensus outside.exits_http
        settings.validators_fetch_chunk_size protocol_config.exit_signature_recover_threshold
        protocol_config.oracles)

  pub distributor_task : ProtocolConfig → Task
  distributor_task protocol_config = ext (
      process_distributor_rewards outside.distributor_fetch outside.distributor_contract
        protocol_config.oracles)

  -- An action on the application's state.
  abbrev pub on_app_state : M (Sys AppState W) (Unit {0}) → Task
  on_app_state = on_part (λ m. m.app_state) (λ a m. record m { app_state = a })

  pub price_task : Task
  price_task = on_app_state (process_layer_two_oseth_price outside.feed settings.price)

  pub force_exits_task : Task
  force_exits_task = on_app_state (
      process_force_exits outside.codec outside.graph_node outside.floats outside.force_graph
        outside.force_contracts outside.registry outside.force_chain settings.ltv_percent_delta
        settings.force_exits_update_interval)

  pub ltv_task : Task
  ltv_task = on_app_state (
      process_vault_max_ltv_user outside.codec outside.graph_node outside.ltv_graph outside.tracker
        outside.ltv_chain settings.ltv_update_interval)

  pub tasks : ProtocolConfig → List Task
  unfolding rewards_task exits_task distributor_task price_task force_exits_task ltv_task
  tasks protocol_config =
      let env = settings.startup in
      (rewards_task protocol_config ∷ exits_task protocol_config ∷ [])
      ++ (when (not settings.skip_distributor_rewards) (distributor_task protocol_config)
          ++ (when (env.price_supported && not env.skip_price) price_task
              ++ (when (env.force_exits_supported && not env.skip_force_exits) force_exits_task
                  ++ when (not env.skip_update_ltv) ltv_task)))

  -- The body of the `try`; `true` where `continue` is reached. An `Exception` of a task is only logged.
  pub run_services : M (Sys (Memory J) W) Bool
  unfolding config_task tasks
  run_services = do
    protocol_config ← config_task
    if length protocol_config.oracles == 0
        then (do ext (outside.handler_sleep 60); pure true)
        else (do
          results ← gather settle_task (tasks protocol_config)
          ext outside.set_balance
          pure false)

  -- The pause until the next block.
  pub pause : ℕ → Task
  pause start_time = do
    now ← ext outside.time
    ext (outside.handler_sleep (settings.time_per_block + start_time - now))

  -- The end of a round, from the result of the `try` on: an `Exception` is logged.
  abbrev pub end_round : ℕ → Settled Bool → Task
  end_round start_time (value true) = pure tt
  end_round start_time (value false) = pause start_time
  end_round start_time (failure e) = if is_exception e then pause start_time else raise e

  pub round : Task
  unfolding run_services pause
  round = do
    start_time ← ext outside.time
    result ← settle run_services
    end_round start_time result

  -- The main loop; `false` says that the fuel, one for each round, ran out.
  unfoldable pub start_keeper : ℕ → M (Sys (Memory J) W) Bool
  unfolding round
  start_keeper zero = pure false
  start_keeper (suc fuel) =
      let rest = start_keeper fuel in
      do exit ← ext outside.interrupted; if exit then pure true else (do round; rest)

  -- The checks fill the cache of the configuration.
  pub checks : ℕ → M (Sys (Memory J) W) Bool
  checks fuel =
      startup_checks (lift_clients outside.clients) (lift_node outside.graph_node)
        (do protocol_config ← config_task; pure protocol_config.oracles) settings.startup fuel

  -- The body of the `try` of `main`.
  unfoldable pub serve : ℕ → M (Sys (Memory J) W) Bool
  unfolding start_keeper checks
  serve fuel = do
    ext outside.setup_clients
    ready ← checks fuel
    if ready then (do ext outside.metrics_server; start_keeper fuel) else pure false

  unfoldable pub main : ℕ → M (Sys (Memory J) W) Bool
  unfolding serve
  main fuel = finally_do (serve fuel) (ext outside.close_clients)
