-- ===== src/Startup/Settings.antt =====
-- What the checks of the environment say of the settings of the price service.
use v3_keeper.Base.{
  ℕ, ◌<◌, ◌≡◌, refl, leb, Bool, true, Bool-cases, inl, inr, List, M, Outcome, done, raised, Post,
  Post-then_do, Post-any, Post-done, arith,
}
use v3_keeper.Config.{Oracle}
use v3_keeper.Graph.{GraphNode}
use v3_keeper.Startup.{
  Clients, Environment, and_then, is_price_updated, check_keeper_balance, check_consensus_nodes,
  check_execution_nodes, check_l2_execution_nodes, check_waiting_time, check_price, check_graph,
  startup_checks,
}

module _ {W : Type 0} (Q : Type 0) where
  -- `Q` holds if the action returns `true`.
  abbrev Shows : Outcome W Bool → Type 0
  Shows o = Post (λ b _. b ≡ true → Q) (λ _ _. Unit {0}) o

  Shows-known : (o : Outcome W Bool) → Q → Shows o
  Shows-known (done b v) q = λ _. q
  Shows-known (raised e v) q = tt

  and_then-first :
      (action rest : M W Bool) (w : W) → Shows (action w) → Shows (and_then action rest w)
  and_then-first action rest w h =
      Post-then_do (λ b _. b ≡ true → Q) (λ b _. b ≡ true → Q) (λ _ _. Unit {0}) (action w) _ h
        (λ ended v k. elim (Bool-cases ended) [
          | inl ends ↦ rw ends (Shows-known (rest v) (k ends))
          | inr cut ↦ rw cut (λ e. absurd (ground (arith, e)))
        ])

  and_then-second :
      (action rest : M W Bool) (w : W) → ((v : W) → Shows (rest v)) → Shows (and_then action rest w)
  and_then-second action rest w h =
      Post-then_do (λ _ _. Unit {0}) (λ b _. b ≡ true → Q) (λ _ _. Unit {0}) (action w) _
        (Post-any (action w))
        (λ ended v _. elim (Bool-cases ended) [
          | inl ends ↦ rw ends (h v)
          | inr cut ↦ rw cut (λ e. absurd (ground (arith, e)))
        ])

module _ {W : Type 0} (clients : Clients W) (node : GraphNode W) (oracles : M W (List Oracle))
    (env : Environment) where
  abbrev Ordered : Type 0
  Ordered = env.price_max_waiting_time < env.price_update_interval

  check_waiting_time-Ordered :
      (w : W) → Shows Ordered (check_waiting_time clients node oracles env w)
  check_waiting_time-Ordered w =
      elim (Bool-cases (leb env.price_update_interval env.price_max_waiting_time)) [
        | inl late ↦ rw late tt
        | inr fine ↦ rw fine (λ _. ground (arith, fine))
      ]

  -- If the price is updated and the checks pass, the waiting time is shorter than the update interval.
  pub startup_checks-waiting_time :
      (fuel : ℕ) (w v : W)
      → is_price_updated env ≡ true
      → startup_checks clients node oracles env fuel w ≡ done true v
      → env.price_max_waiting_time < env.price_update_interval
  unfolding startup_checks check_price
  startup_checks-waiting_time fuel w v updated passed =
      Post-done (λ b _. b ≡ true → Ordered) (λ _ _. Unit {0})
        (startup_checks clients node oracles env fuel w) true v
        (Post-then_do (λ _ _. Unit {0}) (λ b _. b ≡ true → Ordered) (λ _ _. Unit {0})
          (check_keeper_balance clients env.keeper_min_balance w) _
          (Post-any (check_keeper_balance clients env.keeper_min_balance w))
          (λ _ u _.
            and_then-second Ordered (check_consensus_nodes clients fuel env.consensus_endpoints) _ u
              (λ t.
                and_then-second Ordered (check_execution_nodes clients fuel env.execution_endpoints)
                  _ t
                  (λ s.
                    and_then-first Ordered (check_price clients node oracles env fuel)
                      (check_graph clients node oracles env fuel) s (price s)))))
        passed refl
    where
      price : (s : W) → Shows Ordered (check_price clients node oracles env fuel s)
      price s = rw updated (
          and_then-second Ordered (check_l2_execution_nodes clients fuel env.l2_execution_endpoints)
            (check_waiting_time clients node oracles env) s check_waiting_time-Ordered)
