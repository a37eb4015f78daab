-- ===== src/Transaction/Manager/Soundness.antt =====
-- What a run of the manager keeps: records that can be read, and a log of safe transactions.
use v3_keeper.Base.{
  ℕ, ◌≤◌, ◌≡◌, refl, ◌⊎◌, inl, inr, Option, none, some, Bool, All, All-append, All-map, M, Sys,
  Outcome, done, raised, arith, ext, after, after-with_mem, Keeps,
}
use v3_keeper.Transaction.Fees.{TxParams, with_fees}
use v3_keeper.Transaction.Manager.{Manager, Node, Settings, transact_locked}
use v3_keeper.Transaction.Manager.Records.{IsReadable}
use v3_keeper.Transaction.Manager.Safety.{Submitted}
use v3_keeper.Transaction.Manager.Run.{transact_locked-Grows}
use v3_keeper.Transaction.Manager.Invariant.{transact_locked-IsReadable}

-- No fees are set.
pub record HasNoFees (p : TxParams) : Type 0 where
  pub fee : p.max_fee_per_gas ≡ none
  pub priority : p.max_priority_fee_per_gas ≡ none

-- Both fees are set, the priority part at most the whole, and the whole at most the ceiling.
pub record HasCappedFees (ceiling : ℕ) (p : TxParams) : Type 0 where
  pub fee : ℕ
  pub priority : ℕ
  pub fee_is : p.max_fee_per_gas ≡ some fee
  pub priority_is : p.max_priority_fee_per_gas ≡ some priority
  pub priority_le : priority ≤ fee
  pub fee_le : fee ≤ ceiling

abbrev pub IsSafe : ℕ → TxParams → Type 0
IsSafe ceiling p = HasNoFees p ⊎ HasCappedFees ceiling p

-- The records can be read, and every transaction that was broadcast is safe.
pub record IsSound {V : Type 0} (ceiling : ℕ) (s : Sys Manager V) : Type 0 where
  pub readable : All (IsReadable ceiling) s.mem.records
  pub sent_safe : All (IsSafe ceiling) s.mem.sent

module _ {C V : Type 0} (node : Node C V) (settings : Settings) where
  Submitted-IsSafe :
      (call : C) (params : TxParams) (n : ℕ) (prev : Option TxParams) (p : TxParams)
      → HasNoFees params
      → Submitted node settings call params n prev p
      → IsSafe settings.ceiling p
  unfolding with_fees
  Submitted-IsSafe call params n prev p bare (inl same) =
      inl (rw same (record { fee = bare.fee; priority = bare.priority }))
  Submitted-IsSafe call params n prev p bare (inr (f, same, usable)) = inr (
      rw same (record {
        fee = f.fee_per_gas;
        priority = f.priority_fee_per_gas;
        fee_is = refl;
        priority_is = refl;
        priority_le = usable.capped.priority_le;
        fee_le = omega (arith, usable.capped.fee_le, usable.ceiling_is);
      }))

  run-IsSafe :
      (call : C) (params : TxParams) (high_priority : Bool) (s : Sys Manager V) (o : Outcome V ℕ)
      → node.latest_count s.env ≡ o
      → HasNoFees params
      → All (IsSafe settings.ceiling) s.mem.sent
      → All
          (IsSafe settings.ceiling)
          (after (transact_locked node settings call params high_priority s)).mem.sent
  unfolding transact_locked
  run-IsSafe call params high_priority s (raised x w) e bare h = rw e h
  run-IsSafe call params high_priority s (done latest w) e bare h =
      let g = transact_locked-Grows node settings call params high_priority s latest w e in
      rw g.appended (
        All-append (IsSafe settings.ceiling) s.mem.sent g.added h (
          All-map _ (IsSafe settings.ceiling) g.added
            (λ p. Submitted-IsSafe call params latest _ p bare) g.each))

  abbrev pub Sound : Sys Manager V → Type 0
  Sound = IsSound settings.ceiling

  -- A transaction whose caller sets no fees.
  pub transact_locked-IsSound :
      (call : C) (params : TxParams) (high_priority : Bool)
      → HasNoFees params
      → Keeps Sound (transact_locked node settings call params high_priority)
  transact_locked-IsSound call params high_priority bare = record {
    at = λ s h. record {
      readable = transact_locked-IsReadable node settings call params high_priority s h.readable;
      sent_safe =
          run-IsSafe call params high_priority s (node.latest_count s.env) refl bare h.sent_safe;
    };
  }

  pub read-IsSound : {A : Type 0} (m : M V A) → Keeps Sound (ext m)
  read-IsSound m = record {
    at = λ s h. record {
      readable =
          after-with_mem (λ (m : Manager). All (IsReadable settings.ceiling) m.records) s.mem
            (m s.env) h.readable;
      sent_safe =
          after-with_mem (λ (m : Manager). All (IsSafe settings.ceiling) m.sent) s.mem (m s.env)
            h.sent_safe;
    };
  }
