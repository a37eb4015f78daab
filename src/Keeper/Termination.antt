-- ===== src/Keeper/Termination.antt =====
-- The main loop ends when it is interrupted: how many rounds it takes.
use v3_keeper.Base.{
  ℕ, zero, suc, ◌-◌, ◌≤◌, ◌<◌, ◌≡◌, refl, ◌==◌, Bool, true, false, if◌then◌else◌, Bool-cases, inl,
  inr, length, is_exception, Exn, Outcome, done, raised, M, Sys, Post, Post-then_do, with_mem,
  then_do, ext, settle_task, settled, gather, pure, arith, Keeps, OnEnv, after,
}
use v3_keeper.Keeper.{
  ProtocolConfig, Memory, Settings, Outside, config_task, tasks, run_services, pause, end_round,
  round, start_keeper,
}
use v3_keeper.Keeper.Isolation.{IsExiting}
use v3_keeper.Keeper.Steps.{all_tasks-Keeps}
use v3_keeper.Keeper.Frame.{Kept, steps-Keeps}

-- The sleeps that are left until the interrupt, as a function of the world: no call adds to them, a sleep takes
-- one off, and with none left the handler answers that it was interrupted. The handler and the clock raise no
-- `Exception`.
pub record IsInterrupted {E F G J T W : Type 0} (left : W → ℕ) (outside : Outside E F G J T W)
    : Type 0 where
  pub asks :
      (w : W)
      → Post
          (λ b v. (left v ≤ left w) × (left w ≡ 0 → b ≡ true))
          (λ e v. IsExiting e)
          (outside.interrupted w)
  pub clock : (w : W) → Post (λ _ v. left v ≤ left w) (λ e v. IsExiting e) (outside.time w)
  pub sleeps :
      (n : ℕ) (w : W)
      → Post
          (λ _ v. left v ≤ left w - 1)
          (λ e v. IsExiting e × (left v ≤ left w))
          (outside.handler_sleep n w)
  pub kept : (n : ℕ) → Kept (λ w. left w ≤ n) outside

Post-with_mem :
    {P W A : Type 0} (Q R : A → W → Type 0) (X Y : Exn → W → Type 0) (m : P) (o : Outcome W A)
    → Post Q X o
    → ((a : A) (w : W) → Q a w → R a w)
    → ((e : Exn) (w : W) → X e w → Y e w)
    → Post (λ a t. R a t.env) (λ e t. Y e t.env) (with_mem m o)
Post-with_mem Q R X Y m (done a w) h f g = f a w h
Post-with_mem Q R X Y m (raised e w) h f g = g e w h

Post-after :
    {S A : Type 0} (P : S → Type 0) (o : Outcome S A)
    → P (after o)
    → Post (λ _ t. P t) (λ _ t. P t) o
Post-after P (done a t) h = h
Post-after P (raised e t) h = h

module _ {E F G J T W : Type 0} (outside : Outside E F G J T W) (settings : Settings F)
    (left : W → ℕ) (passes : IsInterrupted left outside) where
  abbrev AtMost : ℕ → Sys (Memory J) W → Type 0
  AtMost n s = left s.env ≤ n

  keeps :
      {A : Type 0} (n : ℕ) (m : M (Sys (Memory J) W) A) (s : Sys (Memory J) W)
      → Keeps (OnEnv (λ w. left w ≤ n)) m
      → AtMost n s
      → Post (λ _ t. AtMost n t) (λ _ t. AtMost n t) (m s)
  keeps n m s k h = Post-after (AtMost n) (m s) (k.at s (record { on_env = h })).on_env

  pause-AtMost :
      (n start_time : ℕ) (s : Sys (Memory J) W)
      → AtMost (suc n) s
      → Post (λ _ t. AtMost n t) (λ e _. IsExiting e) (pause outside settings start_time s)
  unfolding pause
  pause-AtMost n start_time s h =
      Post-then_do (λ _ t. AtMost (suc n) t) (λ _ t. AtMost n t) (λ e _. IsExiting e)
        (ext outside.time s) _
        (Post-with_mem (λ _ v. left v ≤ left s.env) (λ _ v. left v ≤ suc n) (λ e _. IsExiting e)
          (λ e _. IsExiting e) s.mem (outside.time s.env) (passes.clock s.env)
          (λ a v k. omega (arith, h, k)) (λ e v k. k))
        (λ now t k.
          Post-with_mem (λ _ v. left v ≤ left t.env - 1) (λ _ v. left v ≤ n)
            (λ e v. IsExiting e × (left v ≤ left t.env)) (λ e _. IsExiting e) t.mem
            (outside.handler_sleep _ t.env) (passes.sleeps _ t.env) (λ a v l. omega (arith, k, l))
            (λ e v l. l.0))

  -- A round that ends early has slept.
  abbrev Slept : ℕ → Bool → Sys (Memory J) W → Type 0
  Slept n b t = AtMost (suc n) t × (b ≡ true → AtMost n t)

  early-AtMost :
      (n : ℕ) (t : Sys (Memory J) W)
      → AtMost (suc n) t
      → Post
          (Slept n)
          (λ _ u. AtMost (suc n) u)
          (then_do (ext (outside.handler_sleep 60) t) (λ _. pure true))
  early-AtMost n t h =
      Post-then_do (λ _ u. AtMost n u) (Slept n) (λ _ u. AtMost (suc n) u)
        (ext (outside.handler_sleep 60) t) _
        (Post-with_mem (λ _ v. left v ≤ left t.env - 1) (λ _ v. left v ≤ n)
          (λ e v. IsExiting e × (left v ≤ left t.env)) (λ _ v. left v ≤ suc n) t.mem
          (outside.handler_sleep 60 t.env) (passes.sleeps 60 t.env) (λ a v l. omega (arith, h, l))
          (λ e v l. omega (arith, h, l.1)))
        (λ _ u l. (omega (arith, l), λ _. l))

  whole-AtMost :
      (n : ℕ) (config : ProtocolConfig) (t : Sys (Memory J) W)
      → AtMost (suc n) t
      → Post
          (Slept n)
          (λ _ u. AtMost (suc n) u)
          (then_do
            (gather settle_task (tasks outside settings config) t)
            (λ _ u. then_do (ext outside.set_balance u) (λ _. pure false)))
  whole-AtMost n config t h =
      let steps = steps-Keeps outside (passes.kept (suc n)) settings in
      Post-then_do (λ _ u. AtMost (suc n) u) (Slept n) (λ _ u. AtMost (suc n) u)
        (gather settle_task (tasks outside settings config) t) _
        (keeps (suc n) (gather settle_task (tasks outside settings config)) t
          (all_tasks-Keeps outside settings steps config) h)
        (λ results u k.
          Post-then_do (λ _ v. AtMost (suc n) v) (Slept n) (λ _ v. AtMost (suc n) v)
            (ext outside.set_balance u) _
            (keeps (suc n) (ext outside.set_balance) u steps.set_balance k)
            (λ _ v l. (l, λ e. absurd (ground (arith, e)))))

  run_services-AtMost :
      (n : ℕ) (s : Sys (Memory J) W)
      → AtMost (suc n) s
      → Post (Slept n) (λ _ t. AtMost (suc n) t) (run_services outside settings s)
  unfolding run_services
  run_services-AtMost n s h =
      let steps = steps-Keeps outside (passes.kept (suc n)) settings in
      Post-then_do (λ _ t. AtMost (suc n) t) (Slept n) (λ _ t. AtMost (suc n) t)
        (config_task outside settings s) _
        (keeps (suc n) (config_task outside settings) s steps.config_task h)
        (λ config t k. elim (Bool-cases (length config.oracles == 0)) [
          | inl none_there ↦ rw none_there (early-AtMost n t k)
          | inr there ↦ rw there (whole-AtMost n config t k)
        ])

  end_round-AtMost :
      (n start_time : ℕ) (o : Outcome (Sys (Memory J) W) Bool)
      → Post (Slept n) (λ _ t. AtMost (suc n) t) o
      → Post
          (λ _ t. AtMost n t)
          (λ e _. IsExiting e)
          (then_do (settled o) (end_round outside settings start_time))
  end_round-AtMost n start_time (done true t) h = h.1 refl
  end_round-AtMost n start_time (done false t) h = pause-AtMost n start_time t h.0
  end_round-AtMost n start_time (raised e t) h = elim (Bool-cases (is_exception e)) [
    | inl ordinary ↦ rw ordinary (pause-AtMost n start_time t h)
    | inr fatal ↦ rw fatal fatal
  ]

  -- Each round sleeps once.
  round-AtMost :
      (n : ℕ) (s : Sys (Memory J) W)
      → AtMost (suc n) s
      → Post (λ _ t. AtMost n t) (λ e _. IsExiting e) (round outside settings s)
  unfolding round
  round-AtMost n s h =
      Post-then_do (λ _ t. AtMost (suc n) t) (λ _ t. AtMost n t) (λ e _. IsExiting e)
        (ext outside.time s) _
        (Post-with_mem (λ _ v. left v ≤ left s.env) (λ _ v. left v ≤ suc n) (λ e _. IsExiting e)
          (λ e _. IsExiting e) s.mem (outside.time s.env) (passes.clock s.env)
          (λ a v k. omega (arith, h, k)) (λ e v k. k))
        (λ start_time t k.
          end_round-AtMost n start_time (run_services outside settings t)
            (run_services-AtMost n t k))

  -- The test of the loop, with what follows if it goes on.
  turn :
      (n : ℕ) (s : Sys (Memory J) W) (rest : M (Sys (Memory J) W) Bool)
      → AtMost n s
      → ((t : Sys (Memory J) W)
          → AtMost n t
          → 0 < n
          → Post (λ b _. b ≡ true) (λ e _. IsExiting e) (rest t))
      → Post
          (λ b _. b ≡ true)
          (λ e _. IsExiting e)
          (then_do (ext outside.interrupted s) (λ exit. if exit then pure true else rest))
  turn n s rest h goes =
      Post-then_do (λ b t. AtMost n t × (left s.env ≡ 0 → b ≡ true)) (λ b _. b ≡ true)
        (λ e _. IsExiting e) (ext outside.interrupted s) _
        (Post-with_mem (λ b v. (left v ≤ left s.env) × (left s.env ≡ 0 → b ≡ true))
          (λ b v. (left v ≤ n) × (left s.env ≡ 0 → b ≡ true)) (λ e _. IsExiting e)
          (λ e _. IsExiting e) s.mem (outside.interrupted s.env) (passes.asks s.env)
          (λ a v k. (omega (arith, h, k.0), k.1)) (λ e v k. k))
        (λ exit t k. elim (Bool-cases exit) [
          | inl ends ↦ rw ends refl
          | inr goes_on ↦
              rw goes_on (goes t k.0 (some_left n h (left s.env == 0) refl exit goes_on k.1))
        ])
    where
      some_left :
          (m : ℕ)
          → left s.env ≤ m
          → (b : Bool) → (left s.env == 0) ≡ b
          → (exit : Bool) → exit ≡ false
          → (left s.env ≡ 0 → exit ≡ true)
          → 0 < m
      some_left m g true none_left exit e f =
          absurd (ground (arith, f (ground (arith, none_left)), e))
      some_left m g false some exit e f = ground (arith, g, some)

  -- If each sleep brings the interrupt nearer and no other call puts it off, and the interrupt handler and the
  -- clock raise no `Exception`, then the main loop ends by itself, by the interrupt, within one round for each
  -- sleep that is left and one more, or by an exception that is no `Exception`: fuel of that size does not run out.
  pub start_keeper-ends :
      (n : ℕ) (s : Sys (Memory J) W)
      → left s.env ≤ n
      → Post (λ b _. b ≡ true) (λ e _. IsExiting e) (start_keeper outside settings (suc n) s)
  unfolding start_keeper
  start_keeper-ends zero s h = turn zero s _ h (λ t k some. absurd (omega (arith, some)))
  start_keeper-ends (suc n) s h = turn (suc n) s _ h (λ t k _.
      Post-then_do (λ _ u. AtMost n u) (λ b _. b ≡ true) (λ e _. IsExiting e)
        (round outside settings t) _ (round-AtMost n t k) (λ _ u l. start_keeper-ends n u l))
