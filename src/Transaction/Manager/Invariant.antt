-- ===== src/Transaction/Manager/Invariant.antt =====
-- A run of `TransactionManager._transact` and the records of broadcasts.
use v3_keeper.Base.{
  ℕ, ◌≡◌, Bool, true, false, none, some, ltb, if◌then◌else◌, Bool-cases, done, Sys, pure, All,
  All-map, with_mem, then_do, after, after-then_do, after-with_mem, inl, inr, ◌>>=◌,
}
use v3_keeper.Transaction.Fees.{TxParams}
use v3_keeper.Transaction.Manager.{
  Manager, Node, Settings, submit_high_priority, submit_default_gas, default_gas_loop,
  wait_for_receipt, forget_mined, submit, transact_locked,
}
use v3_keeper.Transaction.Manager.Records.{
  IsReadable, IsLive, LiveState, forget_mined-IsLive, submit_high_priority-Live,
  default_gas_loop-Live, wait_for_receipt-Live,
}

module _ {C W : Type 0} (node : Node C W) (settings : Settings) where
  submit-Live :
      (call : C) (params : TxParams) (high_priority : Bool) (latest pending : ℕ) (s : Sys Manager W)
      → LiveState node settings latest s
      → LiveState node settings latest
          (after (submit node settings call params high_priority latest pending s))
  unfolding submit
  submit-Live call params high_priority latest pending s h =
      elim (Bool-cases (ltb latest pending)) [
        | inl stuck ↦ rw stuck first
        | inr free ↦ rw free (if_Live high_priority)
      ]
    where
      first :
          LiveState node settings latest
            (after (submit_high_priority node settings call params latest s))
      first = submit_high_priority-Live node settings latest call params s h

      if_Live :
          (high : Bool)
          → LiveState node settings latest (
              after (
                (if high then submit_high_priority node settings call params latest else do
                  h ← submit_default_gas node settings call params latest
                  elim h [
                    | some hash ↦ pure (some hash)
                    | none ↦ submit_high_priority node settings call params latest
                  ])
                  s))
      if_Live true = first
      if_Live false =
          let plain : TxParams = record params { nonce = some latest } in
          after-then_do (LiveState node settings latest)
            (default_gas_loop node settings settings.attempts call plain s) _
            (default_gas_loop-Live node settings latest settings.attempts call plain s h)
            (elim [
              | some hash ↦ λ t _ k. k
              | none ↦ λ t _ k. submit_high_priority-Live node settings latest call params t k
            ])

  submitted-Live :
      (call : C) (params : TxParams) (high_priority : Bool) (latest pending : ℕ) (t : Sys Manager W)
      → All (IsReadable settings.ceiling) t.mem.records
      → LiveState node settings latest (
          after (
            then_do
              (submit node settings call params high_priority latest pending
                (record t { mem = forget_mined latest t.mem }))
              (λ tx_hash. elim tx_hash [
                | none ↦ pure none
                | some h ↦ wait_for_receipt node settings h
              ])))
  submitted-Live call params high_priority latest pending t h =
      let u : Sys Manager W = record t { mem = forget_mined latest t.mem } in
      after-then_do (LiveState node settings latest)
        (submit node settings call params high_priority latest pending u) _
        (submit-Live call params high_priority latest pending u
          (forget_mined-IsLive settings.ceiling latest t.mem.records h))
        (elim [
          | none ↦ λ v _ k. k
          | some hash ↦ λ v _ k. wait_for_receipt-Live node settings latest hash v k
        ])

  abbrev pub ReadableState : Sys Manager W → Type 0
  ReadableState s = All (IsReadable settings.ceiling) s.mem.records

  -- Every record holds both fees before a run, so it does after it, whatever the node answers and
  -- whether the run returns or raises.
  pub transact_locked-IsReadable :
      (call : C) (params : TxParams) (high_priority : Bool) (s : Sys Manager W)
      → All (IsReadable settings.ceiling) s.mem.records
      → All
          (IsReadable settings.ceiling)
          (after (transact_locked node settings call params high_priority s)).mem.records
  unfolding transact_locked
  transact_locked-IsReadable call params high_priority s h =
      after-then_do ReadableState (with_mem s.mem (node.latest_count s.env)) _
        (after-with_mem {Q = Manager} (λ m. All (IsReadable settings.ceiling) m.records) s.mem
          (node.latest_count s.env) h)
        λ latest t _ k.
          after-then_do ReadableState (with_mem t.mem (node.pending_count t.env)) _
            (after-with_mem {Q = Manager} (λ m. All (IsReadable settings.ceiling) m.records) t.mem
              (node.pending_count t.env) k)
            λ pending u _ l.
              All-map (IsLive settings.ceiling latest) (IsReadable settings.ceiling) _
                (λ e live. live.1) (submitted-Live call params high_priority latest pending u l)

  -- If every record holds both fees before a run, and the node reports both nonces, a run leaves records of
  -- nonces from the latest one on only, all with both fees.
  pub transact_locked-IsLive :
      (call : C) (params : TxParams) (high_priority : Bool) (s : Sys Manager W) (latest pending : ℕ)
      (w v : W)
      → node.latest_count s.env ≡ done latest w
      → node.pending_count w ≡ done pending v
      → All (IsReadable settings.ceiling) s.mem.records
      → All
          (IsLive settings.ceiling latest)
          (after (transact_locked node settings call params high_priority s)).mem.records
  unfolding transact_locked
  transact_locked-IsLive call params high_priority s latest pending w v e f h =
      rw (e, f) (submitted-Live call params high_priority latest pending (record s { env = v }) h)
