-- ===== src/Base/Preservation.antt =====
-- Actions that keep a property of the state, whether they return or raise: one rule for each way to build an
-- action, for `search`.
use mathlib.Core.Bool.{Bool, true, false}
use mathlib.Core.List.{List, [], ◌∷◌}
use mathlib.Core.Option.{Option, none, some}
use v3_keeper.Base.Tests.{if◌then◌else◌}
use v3_keeper.Base.Actions.{
  Exn, M, Sys, Outcome, done, raised, with_mem, ◌>>=◌, pure, raise, or_raise, ext, gets, modify,
  settle, settle_task, gather, traverse, for_each, after, after-then_do, after-settled,
  after-collected,
}

pub record Keeps {S A : Type 0} (R : S → Type 0) (m : M S A) : Type 0 where
  pub at : (s : S) → R s → R (after (m s))

module _ {S A : Type 0} {R : S → Type 0} where
  pub Keeps-pure : (a : A) → Keeps R (pure a)
  Keeps-pure a = record { at = λ s h. h }

  pub Keeps-raise : (e : Exn) → Keeps R (raise {A = A} e)
  Keeps-raise e = record { at = λ s h. h }

  pub Keeps-if : (b : Bool) (m n : M S A) → Keeps R m → Keeps R n → Keeps R (if b then m else n)
  Keeps-if true m n h k = h
  Keeps-if false m n h k = k

  pub Keeps-or_raise : (e : Exn) (o : Option A) → Keeps R (or_raise e o)
  Keeps-or_raise e none = record { at = λ s h. h }
  Keeps-or_raise e (some a) = record { at = λ s h. h }

  pub Keeps-settle : (m : M S A) → Keeps R m → Keeps R (settle m)
  Keeps-settle m h = record { at = λ s g. after-settled R (m s) (h.at s g) }

  pub Keeps-settle_task : (m : M S A) → Keeps R m → Keeps R (settle_task m)
  Keeps-settle_task m h = record { at = λ s g. after-collected R (m s) (h.at s g) }

module _ {S : Type 0} {R : S → Type 0} where
  -- `search` finds no argument of type `Unit`.
  pub Keeps-pure_unit : Keeps R (pure {A = Unit {0}} tt)
  Keeps-pure_unit = record { at = λ s h. h }

module _ {S A B : Type 0} {R : S → Type 0} where
  pub Keeps-then :
      (m : M S A) (f : A → M S B) → Keeps R m → ((a : A) → Keeps R (f a)) → Keeps R (m >>= f)
  Keeps-then m f h k = record {
    at = λ s g. after-then_do R (m s) f (h.at s g) (λ a t e. (k a).at t);
  }

module _ {S A B : Type 0} {R : S → Type 0} where
  pub Keeps-gather :
      (f : A → M S B) (xs : List A) → ((a : A) → Keeps R (f a)) → Keeps R (gather f xs)
  Keeps-gather f [] h = Keeps-pure []
  Keeps-gather f (x ∷ xs) h =
      Keeps-then (f x) _ (h x)
        (λ y. Keeps-then (gather f xs) _ (Keeps-gather f xs h) (λ ys. Keeps-pure (y ∷ ys)))

  pub Keeps-traverse :
      (f : A → M S B) (xs : List A) → ((a : A) → Keeps R (f a)) → Keeps R (traverse f xs)
  Keeps-traverse f [] h = Keeps-pure []
  Keeps-traverse f (x ∷ xs) h =
      Keeps-then (f x) _ (h x)
        (λ y. Keeps-then (traverse f xs) _ (Keeps-traverse f xs h) (λ ys. Keeps-pure (y ∷ ys)))

module _ {S A : Type 0} {R : S → Type 0} where
  pub Keeps-for_each :
      (f : A → M S (Unit {0})) (xs : List A) → ((a : A) → Keeps R (f a)) → Keeps R (for_each f xs)
  Keeps-for_each f [] h = Keeps-pure tt
  Keeps-for_each f (x ∷ xs) h = Keeps-then (f x) _ (h x) (λ y. Keeps-for_each f xs h)

-- A property of the outside world, as one of the world beside a memory.
pub record OnEnv {P W : Type 0} (R : W → Type 0) (s : Sys P W) : Type 0 where
  pub on_env : R s.env

after-with_mem_env :
    {P W A : Type 0} (R : W → Type 0) (m : P) (o : Outcome W A)
    → R (after o)
    → OnEnv R (after (with_mem m o))
after-with_mem_env R m (done a w) h = record { on_env = h }
after-with_mem_env R m (raised e w) h = record { on_env = h }

module _ {P W A : Type 0} {R : W → Type 0} where
  pub Keeps-ext : (m : M W A) → Keeps R m → Keeps (OnEnv {P = P} R) (ext m)
  Keeps-ext m h = record { at = λ s g. after-with_mem_env R s.mem (m s.env) (h.at s.env g.on_env) }

  pub Keeps-gets : (f : P → A) → Keeps (OnEnv {P = P} R) (gets f)
  Keeps-gets f = record { at = λ s h. h }

module _ {P W : Type 0} {R : W → Type 0} where
  pub Keeps-modify : (f : P → P) → Keeps (OnEnv {P = P} R) (modify f)
  Keeps-modify f = record { at = λ s h. record { on_env = h.on_env } }

pub ruleset keeps_rules = (
  Keeps-pure_unit, Keeps-pure, Keeps-raise, Keeps-if, Keeps-or_raise, Keeps-settle,
  Keeps-settle_task, Keeps-then, Keeps-gather, Keeps-traverse, Keeps-for_each, Keeps-ext,
  Keeps-gets, Keeps-modify,
)
