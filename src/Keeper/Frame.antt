-- ===== src/Keeper/Frame.antt =====
-- What every call of the outside keeps, the rounds of the main loop keep.
use v3_keeper.Base.{
  Keeps-then, Keeps-if, Keeps-pure, ext, ℕ, Text, Outcome, done, raised, M, Sys, after, Keeps,
  Keeps-ext, OnEnv,
}
use v3_keeper.Price.Frame.{process_price-Keeps}
use v3_keeper.Config.Frame.{get_protocol_config-Keeps}
use v3_keeper.Rewards.Fetch.Frame.{HttpKept}
use v3_keeper.Rewards.Service.Frame.{KeeperKept, process_rewards-Keeps}
use v3_keeper.Exits.Frame.{ConsensusKept, process_exits-Keeps}
use v3_keeper.Distributor.Frame.{process_distributor_rewards-Keeps}
use v3_keeper.Ltv.Frame.{TrackerKept, process_ltv-Keeps}
use v3_keeper.ForceExit.Execution.Frame.{ContractsKept}
use v3_keeper.ForceExit.Service.Frame.{RegistryKept, process_force_exits-Keeps}
use v3_keeper.Startup.Frame.{ClientsKept, Keeps-finally_do, startup_checks-Keeps}
use v3_keeper.Keeper.Steps.{StepsKept, start_keeper-Keeps}
use v3_keeper.Keeper.{
  serve, checks, main, lift_clients, lift_node, ProtocolConfig, Memory, Settings, Outside, put_back,
  on_part, config_task, rewards_task, exits_task, distributor_task, price_task, force_exits_task,
  ltv_task, start_keeper,
}

-- Every call of the outside that the loop makes keeps `R`.
pub record Kept {E F G J T W : Type 0} (R : W → Type 0) (outside : Outside E F G J T W)
    : Type 0 where
  pub chain : v3_keeper.Config.Frame.Kept R outside.chain
  pub rewards_http : HttpKept R outside.rewards_http
  pub keeper_contract : KeeperKept R outside.keeper_contract
  pub distributor_fetch : (url : Text) → Keeps R (outside.distributor_fetch url)
  pub distributor_contract : v3_keeper.Distributor.Frame.Kept R outside.distributor_contract
  pub feed : v3_keeper.Price.Frame.Kept R outside.feed
  pub exits_http : v3_keeper.Exits.Frame.HttpKept R outside.exits_http
  pub consensus : ConsensusKept R outside.consensus
  pub graph_node : v3_keeper.Graph.Frame.Kept R outside.graph_node
  pub force_graph : v3_keeper.ForceExit.Queries.Frame.GraphKept R outside.force_graph
  pub force_contracts : ContractsKept R outside.force_contracts
  pub registry : RegistryKept R outside.registry
  pub force_chain : v3_keeper.ForceExit.Service.Frame.ChainKept R outside.force_chain
  pub ltv_graph : v3_keeper.Ltv.Frame.GraphKept R outside.ltv_graph
  pub tracker : TrackerKept R outside.tracker
  pub ltv_chain : v3_keeper.Ltv.Frame.ChainKept R outside.ltv_chain
  pub interrupted : Keeps R outside.interrupted
  pub time : Keeps R outside.time
  pub handler_sleep : (n : ℕ) → Keeps R (outside.handler_sleep n)
  pub set_balance : Keeps R outside.set_balance
  pub clients : ClientsKept R outside.clients
  pub setup_clients : Keeps R outside.setup_clients
  pub close_clients : Keeps R outside.close_clients
  pub metrics_server : Keeps R outside.metrics_server

put_back-OnEnv :
    {P Q W A : Type 0} (R : W → Type 0) (put : P → Q) (o : Outcome (Sys P W) A)
    → OnEnv R (after o)
    → OnEnv R (after (put_back put o))
put_back-OnEnv R put (done a s) h = record { on_env = h.on_env }
put_back-OnEnv R put (raised e s) h = record { on_env = h.on_env }

Keeps-on_part :
    {P Q W A : Type 0} {R : W → Type 0} (get : Q → P) (put : P → Q → Q) (action : M (Sys P W) A)
    → Keeps (OnEnv R) action
    → Keeps (OnEnv R) (on_part get put action)
Keeps-on_part {R} get put action h = record {
  at = λ s g.
      put_back-OnEnv R (λ p. put p s.mem) (action (record { mem = get s.mem; env = s.env }))
        (h.at _ (record { on_env = g.on_env }));
}

module _ {E F G J T W : Type 0} {R : W → Type 0} (outside : Outside E F G J T W)
    (kept : Kept R outside) (settings : Settings F) where
  abbrev Env : Sys (Memory J) W → Type 0
  Env = OnEnv R

  config_task-Keeps : Keeps Env (config_task outside settings)
  unfolding config_task
  config_task-Keeps =
      Keeps-on_part _ _ _ (get_protocol_config-Keeps outside.chain kept.chain settings.config)

  rewards_task-Keeps : (config : ProtocolConfig) → Keeps Env (rewards_task outside settings config)
  unfolding rewards_task
  rewards_task-Keeps config = Keeps-on_part _ _ _ (
      process_rewards-Keeps outside.rewards_http kept.rewards_http outside.keeper_contract
        kept.keeper_contract outside.to_int _)

  exits_task-Keeps : (config : ProtocolConfig) → Keeps Env (exits_task outside settings config)
  unfolding exits_task
  exits_task-Keeps config = Keeps-ext _ (
      process_exits-Keeps outside.consensus kept.consensus outside.curve outside.exits_http
        kept.exits_http _ _ _)

  distributor_task-Keeps :
      (config : ProtocolConfig) → Keeps Env (distributor_task outside settings config)
  unfolding distributor_task
  distributor_task-Keeps config = Keeps-ext _ (
      process_distributor_rewards-Keeps outside.distributor_fetch outside.distributor_contract
        kept.distributor_fetch kept.distributor_contract _)

  price_task-Keeps : Keeps Env (price_task outside settings)
  unfolding price_task
  price_task-Keeps = Keeps-on_part _ _ _ (process_price-Keeps outside.feed kept.feed settings.price)

  force_exits_task-Keeps : Keeps Env (force_exits_task outside settings)
  unfolding force_exits_task
  force_exits_task-Keeps = Keeps-on_part _ _ _ (
      process_force_exits-Keeps outside.codec outside.graph_node kept.graph_node outside.floats
        outside.force_graph kept.force_graph outside.force_contracts kept.force_contracts
        outside.registry kept.registry outside.force_chain kept.force_chain _ _)

  ltv_task-Keeps : Keeps Env (ltv_task outside settings)
  unfolding ltv_task
  ltv_task-Keeps = Keeps-on_part _ _ _ (
      process_ltv-Keeps outside.codec outside.graph_node kept.graph_node outside.ltv_graph
        kept.ltv_graph outside.tracker kept.tracker outside.ltv_chain kept.ltv_chain _)

  pub steps-Keeps : StepsKept Env outside settings
  steps-Keeps = record {
    config_task = config_task-Keeps;
    rewards_task = rewards_task-Keeps;
    exits_task = exits_task-Keeps;
    distributor_task = distributor_task-Keeps;
    price_task = price_task-Keeps;
    force_exits_task = force_exits_task-Keeps;
    ltv_task = ltv_task-Keeps;
    interrupted = Keeps-ext outside.interrupted kept.interrupted;
    time = Keeps-ext outside.time kept.time;
    handler_sleep = λ n. Keeps-ext (outside.handler_sleep n) (kept.handler_sleep n);
    set_balance = Keeps-ext outside.set_balance kept.set_balance;
  }

  -- What every call of the outside keeps, any number of rounds of the main loop keeps.
  pub start_keeper-OnEnv : (fuel : ℕ) → Keeps Env (start_keeper outside settings fuel)
  start_keeper-OnEnv = start_keeper-Keeps outside settings steps-Keeps

  clients-Keeps : ClientsKept Env (lift_clients outside.clients)
  clients-Keeps = record {
    is_syncing = λ e. Keeps-ext _ (kept.clients.is_syncing e);
    get_finality_checkpoint = λ e. Keeps-ext _ (kept.clients.get_finality_checkpoint e);
    disconnect_consensus = λ e. Keeps-ext _ (kept.clients.disconnect_consensus e);
    syncing = λ e. Keeps-ext _ (kept.clients.syncing e);
    block_number = λ e. Keeps-ext _ (kept.clients.block_number e);
    disconnect_execution = λ e. Keeps-ext _ (kept.clients.disconnect_execution e);
    fetch_example = λ e. Keeps-ext _ (kept.clients.fetch_example e);
    fetch_oracle = λ e. Keeps-ext _ (kept.clients.fetch_oracle e);
    get_keeper_balance = Keeps-ext _ kept.clients.get_keeper_balance;
    sleep = λ n. Keeps-ext _ (kept.clients.sleep n);
  }

  node-Keeps : v3_keeper.Graph.Frame.Kept Env (lift_node outside.graph_node)
  node-Keeps = record {
    fetch_vaults = λ query. Keeps-ext _ (kept.graph_node.fetch_vaults query);
    latest_block = Keeps-ext _ kept.graph_node.latest_block;
    block_at = λ t. Keeps-ext _ (kept.graph_node.block_at t);
  }

  checks-Keeps : (fuel : ℕ) → Keeps Env (checks outside settings fuel)
  unfolding checks
  checks-Keeps fuel =
      startup_checks-Keeps (lift_clients outside.clients) clients-Keeps
        (lift_node outside.graph_node) node-Keeps _
        (Keeps-then (config_task outside settings) _ config_task-Keeps
          (λ config. Keeps-pure config.oracles))
        settings.startup fuel

  -- What every call of the outside keeps, the whole process keeps.
  pub main-OnEnv : (fuel : ℕ) → Keeps Env (main outside settings fuel)
  unfolding main serve
  main-OnEnv fuel =
      Keeps-finally_do _ _
        (Keeps-then (ext outside.setup_clients) _ (Keeps-ext _ kept.setup_clients) (λ u.
          Keeps-then (checks outside settings fuel) _ (checks-Keeps fuel) (λ ready.
            Keeps-if ready _ _
              (Keeps-then (ext outside.metrics_server) _ (Keeps-ext _ kept.metrics_server)
                (λ v. start_keeper-OnEnv fuel))
              (Keeps-pure _))))
        (Keeps-ext _ kept.close_clients)
