-- ===== src/Keeper/Steps.antt =====
-- What each step of a round keeps, the rounds of the main loop keep.
use v3_keeper.Base.{
  ℕ, zero, suc, Bool, true, false, not, ◌&&◌, List, [], ◌∷◌, ◌++◌, All, is_exception, Sys,
  settle_task, gather, ext, Settled, value, failure, Keeps, Keeps-then, Keeps-settle_task,
  Keeps-pure, Keeps-raise, Keeps-if, keeps_rules,
}
use v3_keeper.Keeper.{
  ProtocolConfig, Memory, Settings, Outside, when, Task, config_task, rewards_task, exits_task,
  distributor_task, price_task, force_exits_task, ltv_task, tasks, run_services, pause, end_round,
  round, start_keeper,
}

-- The tasks keep `Q`, and so do the calls that the loop makes itself.
pub record StepsKept {E F G J T W : Type 0} (Q : Sys (Memory J) W → Type 0)
    (outside : Outside E F G J T W) (settings : Settings F) : Type 0 where
  pub config_task : Keeps Q (config_task outside settings)
  pub rewards_task : (config : ProtocolConfig) → Keeps Q (rewards_task outside settings config)
  pub exits_task : (config : ProtocolConfig) → Keeps Q (exits_task outside settings config)
  pub distributor_task :
      (config : ProtocolConfig) → Keeps Q (distributor_task outside settings config)
  pub price_task : Keeps Q (price_task outside settings)
  pub force_exits_task : Keeps Q (force_exits_task outside settings)
  pub ltv_task : Keeps Q (ltv_task outside settings)
  pub interrupted : Keeps Q (ext {P = Memory J} outside.interrupted)
  pub time : Keeps Q (ext {P = Memory J} outside.time)
  pub handler_sleep : (n : ℕ) → Keeps Q (ext {P = Memory J} (outside.handler_sleep n))
  pub set_balance : Keeps Q (ext {P = Memory J} outside.set_balance)

module _ {E F G J T W : Type 0} {Q : Sys (Memory J) W → Type 0} (outside : Outside E F G J T W)
    (settings : Settings F) (kept : StepsKept Q outside settings) where
  when-Keeps :
      (b : Bool) (m : Task outside settings) (rest : List (Task outside settings))
      → Keeps Q m
      → All (Keeps Q) rest
      → All (Keeps Q) (when b m ++ rest)
  when-Keeps true m rest h hs = (h, hs)
  when-Keeps false m rest h hs = hs

  last-Keeps : (b : Bool) (m : Task outside settings) → Keeps Q m → All (Keeps Q) (when b m)
  last-Keeps true m h = (h, tt)
  last-Keeps false m h = tt

  tasks-Keeps : (config : ProtocolConfig) → All (Keeps Q) (tasks outside settings config)
  unfolding tasks
  tasks-Keeps config =
      let env = settings.startup in
      (
        kept.rewards_task config,
        (
          kept.exits_task config,
          when-Keeps (not settings.skip_distributor_rewards)
              (distributor_task outside settings config) _ (kept.distributor_task config)
              (when-Keeps (env.price_supported && not env.skip_price) (price_task outside settings)
                _ kept.price_task
                (when-Keeps (env.force_exits_supported && not env.skip_force_exits)
                  (force_exits_task outside settings) _ kept.force_exits_task
                  (last-Keeps (not env.skip_update_ltv) (ltv_task outside settings)
                    kept.ltv_task))),
        ),
      )

  gather-Keeps :
      (actions : List (Task outside settings))
      → All (Keeps Q) actions
      → Keeps Q (gather settle_task actions)
  gather-Keeps [] h = Keeps-pure []
  gather-Keeps (m ∷ actions) (h, hs) = Keeps-then (settle_task m) _ (Keeps-settle_task m h) (λ r.
      Keeps-then (gather settle_task actions) _ (gather-Keeps actions hs)
        (λ rs. Keeps-pure (r ∷ rs)))

  pub all_tasks-Keeps :
      (config : ProtocolConfig) → Keeps Q (gather settle_task (tasks outside settings config))
  all_tasks-Keeps config = gather-Keeps (tasks outside settings config) (tasks-Keeps config)

  run_services-Keeps : Keeps Q (run_services outside settings)
  unfolding run_services
  run_services-Keeps = search (keeps_rules, StepsKept.handler_sleep, all_tasks-Keeps) depth 20

  pause-Keeps : (start_time : ℕ) → Keeps Q (pause outside settings start_time)
  unfolding pause
  pause-Keeps start_time = search (keeps_rules, StepsKept.handler_sleep)

  end_round-Keeps :
      (start_time : ℕ) (result : Settled Bool)
      → Keeps Q (end_round outside settings start_time result)
  end_round-Keeps start_time (value true) = search keeps_rules
  end_round-Keeps start_time (value false) = pause-Keeps start_time
  end_round-Keeps start_time (failure e) =
      Keeps-if (is_exception e) _ _ (pause-Keeps start_time) (Keeps-raise e)

  round-Keeps : Keeps Q (round outside settings)
  unfolding round
  round-Keeps = search (keeps_rules, run_services-Keeps, end_round-Keeps) depth 20

  -- What each step keeps, any number of rounds of the main loop keeps.
  pub start_keeper-Keeps : (fuel : ℕ) → Keeps Q (start_keeper outside settings fuel)
  unfolding start_keeper
  start_keeper-Keeps zero = Keeps-pure false
  start_keeper-Keeps (suc fuel) = Keeps-then (ext outside.interrupted) _ kept.interrupted (λ exit.
      Keeps-if exit _ _ (Keeps-pure true)
        (Keeps-then (round outside settings) _ round-Keeps (λ u. start_keeper-Keeps fuel)))
