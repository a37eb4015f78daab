-- ===== src/Keeper/Rounds.antt =====
-- The cache of votes through the rounds of the main loop.
use v3_keeper.Base.{ℕ, Outcome, done, raised, M, Sys, after, Keeps, after-with_mem, ext}
use v3_keeper.State.{AppState}
use v3_keeper.Price.{process_layer_two_oseth_price}
use v3_keeper.ForceExit.Service.{process_force_exits}
use v3_keeper.Ltv.{process_vault_max_ltv_user}
use v3_keeper.Config.{get_protocol_config}
use v3_keeper.Rewards.Service.{process_rewards}
use v3_keeper.Rewards.Service.Validity.{IsBounded, process_rewards-IsBounded}
use v3_keeper.Keeper.Steps.{StepsKept, start_keeper-Keeps}
use v3_keeper.Keeper.{
  ProtocolConfig, Memory, Settings, Outside, put_back, on_part, on_app_state, config_task,
  rewards_task, exits_task, distributor_task, price_task, force_exits_task, ltv_task, start_keeper,
}

after-put_back :
    {P Q W A : Type 0} (R : Q → Type 0) (put : P → Q) (o : Outcome (Sys P W) A)
    → R (put (after o).mem)
    → R (after (put_back put o)).mem
after-put_back R put (done a s) h = h
after-put_back R put (raised e s) h = h

module _ {E F G J R W : Type 0} (outside : Outside E F G J R W) (settings : Settings F)
    (size : ℕ) where
  abbrev InMemory : Memory J → Type 0
  InMemory m = IsBounded size m.rewards_cache

  abbrev Kept : Sys (Memory J) W → Type 0
  Kept s = InMemory s.mem

  ext-Keeps : {A : Type 0} (m : M W A) → Keeps Kept (ext m)
  ext-Keeps m = record { at = λ s h. after-with_mem InMemory s.mem (m s.env) h }

  on_part-Keeps :
      {P A : Type 0} (get : Memory J → P) (put : P → Memory J → Memory J) (action : M (Sys P W) A)
      (s : Sys (Memory J) W)
      → InMemory (put (after (action (record { mem = get s.mem; env = s.env }))).mem s.mem)
      → Kept (after (on_part get put action s))
  on_part-Keeps get put action s h =
      after-put_back InMemory (λ p. put p s.mem) (action (record { mem = get s.mem; env = s.env }))
        h

  config_task-Keeps : Keeps Kept (config_task outside settings)
  unfolding config_task
  config_task-Keeps = record {
    at =
        on_part-Keeps (λ m. m.oracles_cache) (λ c m. record m { oracles_cache = c })
          (get_protocol_config outside.chain settings.config);
  }

  rewards_task-Keeps : (config : ProtocolConfig) → Keeps Kept (rewards_task outside settings config)
  unfolding rewards_task
  rewards_task-Keeps config =
      let given : v3_keeper.Rewards.Service.ProtocolConfig = record {
        oracles = config.oracles;
        rewards_threshold = config.rewards_threshold;
      } in
      record {
        at = λ s h.
            on_part-Keeps (λ m. m.rewards_cache) (λ c m. record m { rewards_cache = c })
              (process_rewards outside.rewards_http outside.keeper_contract outside.to_int given) s
              (process_rewards-IsBounded outside.rewards_http outside.keeper_contract outside.to_int
                size given (record { mem = s.mem.rewards_cache; env = s.env }) h);
      }

  on_app_state-Keeps :
      (m : M (Sys AppState W) (Unit {0})) → Keeps Kept (on_app_state outside settings m)
  on_app_state-Keeps action = record {
    at = on_part-Keeps (λ m. m.app_state) (λ a m. record m { app_state = a }) action;
  }

  price_task-Keeps : Keeps Kept (price_task outside settings)
  unfolding price_task
  price_task-Keeps = on_app_state-Keeps (process_layer_two_oseth_price outside.feed settings.price)

  force_exits_task-Keeps : Keeps Kept (force_exits_task outside settings)
  unfolding force_exits_task
  force_exits_task-Keeps = on_app_state-Keeps (
      process_force_exits outside.codec outside.graph_node outside.floats outside.force_graph
        outside.force_contracts outside.registry outside.force_chain settings.ltv_percent_delta
        settings.force_exits_update_interval)

  ltv_task-Keeps : Keeps Kept (ltv_task outside settings)
  unfolding ltv_task
  ltv_task-Keeps = on_app_state-Keeps (
      process_vault_max_ltv_user outside.codec outside.graph_node outside.ltv_graph outside.tracker
        outside.ltv_chain settings.ltv_update_interval)

  steps-Keeps : StepsKept Kept outside settings
  unfolding exits_task distributor_task
  steps-Keeps = record {
    config_task = config_task-Keeps;
    rewards_task = rewards_task-Keeps;
    exits_task = λ config. ext-Keeps _;
    distributor_task = λ config. ext-Keeps _;
    price_task = price_task-Keeps;
    force_exits_task = force_exits_task-Keeps;
    ltv_task = ltv_task-Keeps;
    interrupted = ext-Keeps outside.interrupted;
    time = ext-Keeps outside.time;
    handler_sleep = λ n. ext-Keeps (outside.handler_sleep n);
    set_balance = ext-Keeps outside.set_balance;
  }

  -- Through any number of rounds of the main loop the cache of votes stays well formed and within its size,
  -- whatever the outside answers, and whether the loop goes on, ends or raises.
  pub start_keeper-IsBounded :
      (fuel : ℕ) (s : Sys (Memory J) W)
      → IsBounded size s.mem.rewards_cache
      → IsBounded size (after (start_keeper outside settings fuel s)).mem.rewards_cache
  start_keeper-IsBounded fuel s h = (start_keeper-Keeps outside settings steps-Keeps fuel).at s h
