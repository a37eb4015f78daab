-- ===== src/Transaction/Manager/Grows.antt =====
-- How the log of broadcasts grows over an action: what is added has a property, and how much.
use v3_keeper.Base.{
  ℕ, ◌+◌, ◌≤◌, ◌≡◌, refl, sym, List, [], ◌∷◌, ◌++◌, All, All-append, All-map, length, length-append,
  arith, after, Outcome, done, raised, M, Sys, settled, with_mem, then_do,
}
use mathlib.Core.List.{append-nil, append_assoc}
use v3_keeper.Transaction.Fees.{TxParams}
use v3_keeper.Transaction.Manager.{Manager}

pub record Grows (P : TxParams → Type 0) (k : ℕ) (old new : List TxParams) : Type 0 where
  pub added : List TxParams
  pub appended : new ≡ old ++ added
  pub each : All P added
  pub count : length added ≤ k

module _ {P : TxParams → Type 0} where
  pub Grows-same : (k : ℕ) (l : List TxParams) → Grows P k l l
  Grows-same k l = record {
    added = [];
    appended = sym (append-nil l);
    each = tt;
    count = omega arith;
  }

  pub Grows-one : (p : TxParams) (l : List TxParams) → P p → Grows P 1 l (l ++ (p ∷ []))
  Grows-one p l h = record { added = p ∷ []; appended = refl; each = (h, tt); count = omega arith }

  pub Grows-trans :
      (j k : ℕ) {a b c : List TxParams} → Grows P j a b → Grows P k b c → Grows P (j + k) a c
  Grows-trans j k {a} g h = record {
    added = g.added ++ h.added;
    appended = rw (h.appended, g.appended) (append_assoc a g.added h.added);
    each = All-append P g.added h.added g.each h.each;
    count = omega (arith, length-append g.added h.added, g.count, h.count);
  }

  pub Grows-weaken : (j k : ℕ) {a b : List TxParams} → j ≤ k → Grows P j a b → Grows P k a b
  Grows-weaken j k le g = record {
    added = g.added;
    appended = g.appended;
    each = g.each;
    count = omega (arith, g.count);
  }

pub Grows-map :
    (P Q : TxParams → Type 0) (k : ℕ) {a b : List TxParams}
    → ((p : TxParams) → P p → Q p)
    → Grows P k a b
    → Grows Q k a b
Grows-map P Q k f g = record {
  added = g.added;
  appended = g.appended;
  each = All-map P Q g.added f g.each;
  count = g.count;
}

module _ {W : Type 0} where
  abbrev pub sent_of : Sys Manager W → List TxParams
  sent_of s = s.mem.sent

  module _ {P : TxParams → Type 0} where
    pub Grows-with_mem :
        {A : Type 0} (k : ℕ) (m : Manager) (o : Outcome W A)
        → Grows P k m.sent (sent_of (after (with_mem m o)))
    Grows-with_mem k m (done a w) = Grows-same k m.sent
    Grows-with_mem k m (raised e w) = Grows-same k m.sent

    pub Grows-settled :
        {A : Type 0} (k : ℕ) (l : List TxParams) (o : Outcome (Sys Manager W) A)
        → Grows P k l (sent_of (after o))
        → Grows P k l (sent_of (after (settled o)))
    Grows-settled k l (done a s) g = g
    Grows-settled k l (raised e s) g = g

    pub Grows-then_do :
        {A B : Type 0} (j k : ℕ) (l : List TxParams) (o : Outcome (Sys Manager W) A)
        (f : A → M (Sys Manager W) B)
        → Grows P j l (sent_of (after o))
        → ((a : A) (t : Sys Manager W)
            → o ≡ done a t
            → Grows P k (sent_of t) (sent_of (after (f a t))))
        → Grows P (j + k) l (sent_of (after (then_do o f)))
    Grows-then_do j k l (done a t) f g h = Grows-trans j k g (h a t refl)
    Grows-then_do j k l (raised e t) f g h = Grows-weaken j (j + k) (omega arith) g
