-- ===== src/Base/Results.antt =====
-- What an action returns, if it returns, in whatever state it runs.
use mathlib.Core.Bool.{Bool, true, false}
use mathlib.Core.Option.{Option, none, some}
use mathlib.Core.Path.{◌≡◌, refl}
use v3_keeper.Base.Tests.{if◌then◌else◌}
use v3_keeper.Base.Actions.{
  Exn, M, done, ◌>>=◌, pure, raise, or_raise, Post, Post-then_do, Post-any, Post-done,
}

pub record Gives {S A : Type 0} (Q : A → Type 0) (m : M S A) : Type 0 where
  pub post : (s : S) → Post (λ a _. Q a) (λ _ _. Unit {0}) (m s)

module _ {S A : Type 0} {Q : A → Type 0} where
  pub Gives-pure : (a : A) → Q a → Gives {S = S} Q (pure a)
  Gives-pure a h = record { post = λ s. h }

  pub Gives-raise : (e : Exn) → Gives {S = S} Q (raise e)
  Gives-raise e = record { post = λ s. tt }

  pub Gives-if : (b : Bool) (m n : M S A) → Gives Q m → Gives Q n → Gives Q (if b then m else n)
  Gives-if true m n h k = h
  Gives-if false m n h k = k

  pub Gives-or_raise :
      (e : Exn) (o : Option A) → ((a : A) → o ≡ some a → Q a) → Gives {S = S} Q (or_raise e o)
  Gives-or_raise e none h = record { post = λ s. tt }
  Gives-or_raise e (some a) h = record { post = λ s. h a refl }

  -- What is returned, from the result.
  pub Gives-done : (m : M S A) → Gives Q m → (s t : S) (a : A) → m s ≡ done a t → Q a
  Gives-done m g s t a = Post-done (λ a _. Q a) (λ _ _. Unit {0}) (m s) a t (g.post s)

module _ {S A B : Type 0} {Q : B → Type 0} where
  pub Gives-then :
      (R : A → Type 0) (m : M S A) (f : A → M S B)
      → Gives R m
      → ((a : A) → R a → Gives Q (f a))
      → Gives Q (m >>= f)
  Gives-then R m f h k = record {
    post = λ s.
        Post-then_do (λ a _. R a) (λ b _. Q b) (λ _ _. Unit {0}) (m s) f (h.post s)
          (λ a t r. (k a r).post t);
  }

  -- A step whose result does not matter.
  pub Gives-skip : (m : M S A) (f : A → M S B) → ((a : A) → Gives Q (f a)) → Gives Q (m >>= f)
  Gives-skip m f k =
      Gives-then (λ _. Unit {0}) m f (record { post = λ s. Post-any (m s) }) (λ a _. k a)

pub ruleset gives_rules = (Gives-pure, Gives-raise, Gives-if, Gives-skip)
