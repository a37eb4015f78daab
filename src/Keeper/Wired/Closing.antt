-- ===== src/Keeper/Wired/Closing.antt =====
-- The clients when the process ends.
use v3_keeper.Base.{
  ℕ, ◌≡◌, refl, M, Sys, Outcome, done, raised, ext, after, settled, Settled, value, failure, pure,
  raise, then_do,
}
use v3_keeper.Networks.{PriceNetworkConfig}
use v3_keeper.Clients.{Handles, close_clients}
use v3_keeper.Startup.{finally_do}
use v3_keeper.Transaction.Manager.{Manager, Node}
use v3_keeper.Contracts.Wrappers.{ContractCall, Views}
use v3_keeper.Keeper.{Memory, Settings, serve, main}
use v3_keeper.Keeper.Wired.{Peers, wired}

-- Each disconnect succeeds, closes its client, and leaves the ones closed that are.
pub record Disconnects {V : Type 0} (A B C : V → Type 0) (handles : Handles V) : Type 0 where
  pub consensus : (v : V) → (w : V) × (handles.disconnect_consensus v ≡ done tt w) × A w
  pub execution : (v : V) → A v → (w : V) × (handles.disconnect_execution v ≡ done tt w) × A w × B w
  pub graph :
      (v : V) → A v → B v → (w : V) × (handles.disconnect_graph v ≡ done tt w) × A w × B w × C w

-- All three clients are closed.
pub record AreClosed {V : Type 0} (A B C : V → Type 0) (v : V) : Type 0 where
  pub consensus : A v
  pub execution : B v
  pub graph : C v

-- What the cleanup brings about holds at the end.
finally_do-after :
    {S A : Type 0} (P : S → Type 0) (action : M S A) (cleanup : M S (Unit {0})) (s : S)
    → ((t : S) → P (after (cleanup t)))
    → P (after (finally_do action cleanup s))
finally_do-after {S} {A} P action cleanup s h = ended (action s)
  where
    last :
        (r : Settled A) (o : Outcome S (Unit {0}))
        → P (after o)
        → P (
            after
              (then_do o (λ _. elim r as (λ _. M S A) [ value a ↦ pure a | failure e ↦ raise e ])))
    last (value a) (done u t) k = k
    last (failure e) (done u t) k = k
    last r (raised e t) k = k

    ended :
        (o : Outcome S A)
        → P (
            after (
              then_do (settled o) (λ r t.
                then_do
                  (cleanup t)
                  (λ _. elim r as (λ _. M S A) [ value a ↦ pure a | failure e ↦ raise e ]))))
    ended (done a t) = last (value a) (cleanup t) (h t)
    ended (raised e t) = last (failure e) (cleanup t) (h t)

module _ {E F G J V : Type 0} (A B C : V → Type 0) (peers : Peers E F G J V)
    (disconnects : Disconnects A B C peers.handles) where
  close_clients_closed :
      (v : V) → (w : V) × (close_clients peers.handles v ≡ done tt w) × AreClosed A B C w
  unfolding close_clients
  close_clients_closed v =
      let (w, e, a) = disconnects.consensus v in
      let (x, f, a', b) = disconnects.execution w a in
      let (y, g, a_end, b_end, c_end) = disconnects.graph x a' b in
      (y, rw (e, f, g) refl, record { consensus = a_end; execution = b_end; graph = c_end })

  module _ (views : Views V) (node : Node ContractCall V)
      (manager_settings : v3_keeper.Transaction.Manager.Settings) (config : PriceNetworkConfig)
      (account : ℕ) (settings : Settings F) where
    -- If each disconnect succeeds, closes its client and opens none, then all three clients are closed when `main`
    -- ends, whatever the set-up, the checks and the services do, and whether it returns or raises.
    pub main_closed :
        (fuel : ℕ) (s : Sys (Memory J) (Sys Manager V))
        → AreClosed A B C
            (after (
              main
                (wired peers views node manager_settings config account)
                settings
                fuel
                s)).env.env
    unfolding main wired
    main_closed fuel s =
        finally_do-after (λ t. AreClosed A B C t.env.env)
          (serve (wired peers views node manager_settings config account) settings fuel)
          (ext (ext (close_clients peers.handles))) s
          (λ t. let (w, e, closed) = close_clients_closed t.env.env in rw e closed)
