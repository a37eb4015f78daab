-- ===== src/Keeper/Isolation.antt =====
-- No `Exception` of a service stops the main loop.
use v3_keeper.Base.{
  ℕ, zero, suc, ◌≡◌, Bool, true, false, Bool-cases, inl, inr, Exn, is_exception, Outcome, done,
  raised, M, Sys, Post, Post-then_do, with_mem, then_do, ext, Settled, settled, value, failure,
}
use v3_keeper.Keeper.{
  Memory, Settings, Outside, run_services, pause, end_round, round, start_keeper,
}

-- An exception that is no `Exception`.
abbrev pub IsExiting : Exn → Type 0
IsExiting e = is_exception e ≡ false

abbrev pub Quiet : {S A : Type 0} → Outcome S A → Type 0
Quiet o = Post (λ _ _. Unit {0}) (λ e _. IsExiting e) o

Quiet-then_do :
    {S A B : Type 0} (o : Outcome S A) (f : A → M S B)
    → Quiet o
    → ((a : A) (t : S) → Quiet (f a t))
    → Quiet (then_do o f)
Quiet-then_do o f h k =
    Post-then_do (λ _ _. Unit {0}) (λ _ _. Unit {0}) (λ e _. IsExiting e) o f h (λ a t _. k a t)

Quiet-with_mem : {P W A : Type 0} (m : P) (o : Outcome W A) → Quiet o → Quiet (with_mem m o)
Quiet-with_mem m (done a w) h = h
Quiet-with_mem m (raised e w) h = h

Quiet-settled : {S A : Type 0} (o : Outcome S A) → Quiet (settled o)
Quiet-settled (done a s) = tt
Quiet-settled (raised e s) = tt

module _ {E F G J R W : Type 0} (outside : Outside E F G J R W) (settings : Settings F) where
  module _ (asks : (w : W) → Quiet (outside.interrupted w))
      (clock : (w : W) → Quiet (outside.time w))
      (sleeps : (n : ℕ) (w : W) → Quiet (outside.handler_sleep n w)) where
    pause-Quiet :
        (start_time : ℕ) (s : Sys (Memory J) W) → Quiet (pause outside settings start_time s)
    unfolding pause
    pause-Quiet start_time s =
        Quiet-then_do (ext outside.time s) _
          (Quiet-with_mem s.mem (outside.time s.env) (clock s.env))
          (λ now t. Quiet-with_mem t.mem _ (sleeps _ t.env))

    end_round-Quiet :
        (start_time : ℕ) (result : Settled Bool) (s : Sys (Memory J) W)
        → Quiet (end_round outside settings start_time result s)
    end_round-Quiet start_time (value true) s = tt
    end_round-Quiet start_time (value false) s = pause-Quiet start_time s
    end_round-Quiet start_time (failure e) s = elim (Bool-cases (is_exception e)) [
      | inl ordinary ↦ rw ordinary (pause-Quiet start_time s)
      | inr fatal ↦ rw fatal fatal
    ]

    round-Quiet : (s : Sys (Memory J) W) → Quiet (round outside settings s)
    unfolding round
    round-Quiet s =
        Quiet-then_do (ext outside.time s) _
          (Quiet-with_mem s.mem (outside.time s.env) (clock s.env))
          (λ start_time t.
            Quiet-then_do (settled (run_services outside settings t)) _
              (Quiet-settled (run_services outside settings t)) (end_round-Quiet start_time))

    -- If the interrupt handler and the clock raise no `Exception`, then no number of rounds of the main loop
    -- raises one, whatever the services, the configuration and the metrics raise.
    pub start_keeper-Quiet :
        (fuel : ℕ) (s : Sys (Memory J) W) → Quiet (start_keeper outside settings fuel s)
    unfolding start_keeper
    start_keeper-Quiet zero s = tt
    start_keeper-Quiet (suc fuel) s =
        Quiet-then_do (ext outside.interrupted s) _
          (Quiet-with_mem s.mem (outside.interrupted s.env) (asks s.env))
          (λ exit t. elim (Bool-cases exit) [
            | inl ends ↦ rw ends tt
            | inr goes_on ↦ rw goes_on (
                Quiet-then_do (round outside settings t) _ (round-Quiet t)
                  (λ u v. start_keeper-Quiet fuel v))
          ])
