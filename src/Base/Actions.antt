-- ===== src/Base/Actions.antt =====
-- Actions that change a state, call the outside world and may raise. What was changed before a
-- raise stays changed, so the state comes back beside the exception too.
use mathlib.Core.Path.{◌≡◌, refl, subst}
use native.Mathlib.Omega.{arith}
use mathlib.Core.Bool.{Bool, true, false}
use mathlib.Core.Option.{Option, none, some}
use Prim.Native.Nat.{ℕ}
use Prim.Native.String.{String}
use mathlib.Core.List.{List, [], ◌∷◌}

-- `web3.exceptions.Web3RPCError`: the `error` object of `rpc_response`, where there is one, with its
-- message as text where that is not `None`; and the text of the exception itself. Texts are lists
-- of code points.
pub record RpcError : Type 0 where
  pub error_object : Option (Option (List ℕ))
  pub text : List ℕ

-- The exceptions that the program raises or tells apart. `exiting` stands for those that end the
-- program: `KeyboardInterrupt` and `SystemExit`, a `BaseException` and no `Exception`.
pub data Exn : Type 0 where
  rpc_error : RpcError → Exn
  time_exhausted : Exn
  response_error : Exn
  key_error : Exn
  index_error : Exn
  runtime_error : String → Exn
  value_error : String → Exn
  connection_error : String → Exn
  other : ℕ → Exn
  exiting : ℕ → Exn

-- `isinstance(e, Exception)`
abbrev pub is_exception : Exn → Bool
is_exception (exiting n) = false
is_exception e = true

pub data Outcome (S A : Type 0) : Type 0 where
  done : A → S → Outcome S A
  raised : Exn → S → Outcome S A

abbrev pub M : Type 0 → Type 0 → Type 0
M S A = S → Outcome S A

abbrev pub pure : {S A : Type 0} → A → M S A
pure a s = done a s

abbrev pub raise : {S A : Type 0} → Exn → M S A
raise e s = raised e s

abbrev pub then_do : {S A B : Type 0} → Outcome S A → (A → M S B) → Outcome S B
then_do (done a s) f = f a s
then_do (raised e s) f = raised e s

infixl 5 ◌>>=◌ ◌>>◌
abbrev pub ◌>>=◌ : {S A B : Type 0} → M S A → (A → M S B) → M S B
◌>>=◌ m f s = then_do (m s) f

abbrev pub ◌>>◌ : {S A B : Type 0} → M S A → M S B → M S B
m >> k = m >>= λ _. k

-- An action's value, or the exception that it raised.
pub data Settled (A : Type 0) : Type 0 where
  value : A → Settled A
  failure : Exn → Settled A

abbrev pub settled : {S A : Type 0} → Outcome S A → Outcome S (Settled A)
settled (done a s) = done (value a) s
settled (raised e s) = done (failure e) s

abbrev pub settle : {S A : Type 0} → M S A → M S (Settled A)
settle m s = settled (m s)

-- A task of `asyncio.gather(..., return_exceptions=True)`: an `Exception` is handed over as a value, but
-- the event loop raises `KeyboardInterrupt` and `SystemExit` of a task again.
abbrev pub hand_over : {S A : Type 0} → Bool → Exn → M S (Settled A)
hand_over true e s = done (failure e) s
hand_over false e s = raised e s

abbrev pub collected : {S A : Type 0} → Outcome S A → Outcome S (Settled A)
collected (done a s) = done (value a) s
collected (raised e s) = hand_over (is_exception e) e s

abbrev pub settle_task : {S A : Type 0} → M S A → M S (Settled A)
settle_task m s = collected (m s)

-- The value, or an exception where there is none.
abbrev pub or_raise : {A S : Type 0} → Exn → Option A → M S A
or_raise e none = raise e
or_raise e (some a) = pure a

-- A `for` loop over a list.
abbrev pub for_each : {S A : Type 0} → (A → M S (Unit {0})) → List A → M S (Unit {0})
for_each f [] = pure tt
for_each f (x ∷ xs) = do f x; for_each f xs

-- `[f(x) for x in xs]` where `f` may raise.
abbrev pub traverse : {S A B : Type 0} → (A → M S B) → List A → M S (List B)
traverse f [] = pure []
traverse f (x ∷ xs) = do y ← f x; ys ← traverse f xs; pure (y ∷ ys)

-- The calls of `asyncio.gather` over a list, one after another; the first exception goes on.
abbrev pub gather : {S A B : Type 0} → (A → M S B) → List A → M S (List B)
gather f [] = pure []
gather f (x ∷ xs) = do y ← f x; ys ← gather f xs; pure (y ∷ ys)

-- The program's own state beside the world that its calls change.
pub record Sys (P W : Type 0) : Type 0 where
  pub mem : P
  pub env : W

-- A call of the outside world leaves the program's state alone.
abbrev pub with_mem : {P W A : Type 0} → P → Outcome W A → Outcome (Sys P W) A
with_mem m (done a w) = done a (record { mem = m; env = w })
with_mem m (raised e w) = raised e (record { mem = m; env = w })

abbrev pub ext : {P W A : Type 0} → M W A → M (Sys P W) A
ext m s = with_mem s.mem (m s.env)

abbrev pub gets : {P W A : Type 0} → (P → A) → M (Sys P W) A
gets f s = done (f s.mem) s

abbrev pub modify : {P W : Type 0} → (P → P) → M (Sys P W) (Unit {0})
modify f s = done tt (record s { mem = f s.mem })

-- `Q` holds of the result if the action returns, and `X` of the state if it raises.
abbrev pub Post : {S A : Type 0} → (A → S → Type 0) → (Exn → S → Type 0) → Outcome S A → Type 0
Post Q X (done a s) = Q a s
Post Q X (raised e s) = X e s

-- Sequences are equal if what follows the first action is.
pub then_do_ext :
    {S A B : Type 0} (o : Outcome S A) (f g : A → M S B)
    → ((a : A) (t : S) → f a t ≡ g a t)
    → then_do o f ≡ then_do o g
then_do_ext (done a t) f g h = h a t
then_do_ext (raised e t) f g h = refl

pub then_do_assoc :
    {S A B C : Type 0} (o : Outcome S A) (f : A → M S B) (g : B → M S C)
    → then_do (then_do o f) g ≡ then_do o (λ a t. then_do (f a t) g)
then_do_assoc (done a t) f g = refl
then_do_assoc (raised e t) f g = refl

pub Post-then_do :
    {S A B : Type 0} (R : A → S → Type 0) (Q : B → S → Type 0) (X : Exn → S → Type 0)
    (o : Outcome S A) (f : A → M S B)
    → Post R X o
    → ((a : A) (t : S) → R a t → Post Q X (f a t))
    → Post Q X (then_do o f)
Post-then_do R Q X (done a t) f h k = k a t h
Post-then_do R Q X (raised e t) f h k = h

pub Post-any : {S A : Type 0} (o : Outcome S A) → Post (λ _ _. Unit {0}) (λ _ _. Unit {0}) o
Post-any (done a t) = tt
Post-any (raised e t) = tt

pub Post-done :
    {S A : Type 0} (Q : A → S → Type 0) (X : Exn → S → Type 0) (o : Outcome S A) (a : A) (s : S)
    → Post Q X o
    → o ≡ done a s
    → Q a s
Post-done Q X o a s h e = subst (Post Q X) e h

-- What holds whenever an action returns.
pub Post-from_done :
    {S A : Type 0} (Q : A → S → Type 0) (o : Outcome S A)
    → ((a : A) (t : S) → o ≡ done a t → Q a t)
    → Post Q (λ _ _. Unit {0}) o
Post-from_done Q (done a t) k = k a t refl
Post-from_done Q (raised e t) k = tt

pub Post-map :
    {S A : Type 0} (R Q : A → S → Type 0) (o : Outcome S A)
    → Post R (λ _ _. Unit {0}) o
    → ((a : A) (t : S) → R a t → Q a t)
    → Post Q (λ _ _. Unit {0}) o
Post-map R Q (done a t) h k = k a t h
Post-map R Q (raised e t) h k = tt

-- The state that an action leaves, whether it returns or raises.
abbrev pub after : {S A : Type 0} → Outcome S A → S
after (done a s) = s
after (raised e s) = s

-- What holds of the state after each step holds of the state after a sequence.
pub after-then_do :
    {S A B : Type 0} (P : S → Type 0) (o : Outcome S A) (f : A → M S B)
    → P (after o)
    → ((a : A) (t : S) → o ≡ done a t → P t → P (after (f a t)))
    → P (after (then_do o f))
after-then_do P (done a s) f h k = k a s refl h
after-then_do P (raised e s) f h k = h

pub after-settled :
    {S A : Type 0} (P : S → Type 0) (o : Outcome S A) → P (after o) → P (after (settled o))
after-settled P (done a s) h = h
after-settled P (raised e s) h = h

after-hand_over :
    {S : Type 0} (A : Type 0) (P : S → Type 0) (b : Bool) (e : Exn) (s : S)
    → P s
    → P (after (hand_over {A = A} b e s))
after-hand_over A P true e s h = h
after-hand_over A P false e s h = h

pub after-collected :
    {S A : Type 0} (P : S → Type 0) (o : Outcome S A) → P (after o) → P (after (collected o))
after-collected P (done a s) h = h
after-collected P (raised e s) h = after-hand_over _ P (is_exception e) e s h

-- A call of the world changes nothing of the program's state.
pub after-with_mem :
    {Q W A : Type 0} (P : Q → Type 0) (m : Q) (o : Outcome W A) → P m → P (after (with_mem m o)).mem
after-with_mem P m (done a w) h = h
after-with_mem P m (raised e w) h = h

pub with_mem_same :
    {Q W A : Type 0} {a : A} {t : Sys Q W} (m : Q) (o : Outcome W A)
    → with_mem m o ≡ done a t
    → t.mem ≡ m
with_mem_same m (done a w) h = ground arith
with_mem_same m (raised e w) h = absurd (ground arith)

pub done-after : {S A : Type 0} {a : A} {t : S} (o : Outcome S A) → o ≡ done a t → after o ≡ t
done-after o h = rw h refl
