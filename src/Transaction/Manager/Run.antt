-- ===== src/Transaction/Manager/Run.antt =====
-- A whole run of `TransactionManager._transact`: what is broadcast.
use v3_keeper.Base.{
  ℕ, ◌+◌, ◌≡◌, refl, Bool, true, none, some, arith, lookup, lookup-filter, leb, le→leb, Bool-cases,
  done, raised, Sys, Exn, value, failure, with_mem, settled, after, with_mem_same, inl, inr,
}
use v3_keeper.Transaction.Fees.{TxParams}
use v3_keeper.Transaction.Manager.{
  Manager, Node, Settings, is_timeout, wait_for_receipt, forget_mined, submit, transact_locked,
  transact,
}
use v3_keeper.Transaction.Manager.Grows.{
  Grows, Grows-same, Grows-weaken, Grows-with_mem, Grows-settled, Grows-then_do,
}
use v3_keeper.Transaction.Manager.Safety.{Submitted, submit-Grows}

module _ {C W : Type 0} (node : Node C W) (settings : Settings) where
  wait_for_receipt-Grows :
      (P : TxParams → Type 0) (h : ℕ) (s : Sys Manager W)
      → Grows P 0 s.mem.sent (after (wait_for_receipt node settings h s)).mem.sent
  unfolding wait_for_receipt
  wait_for_receipt-Grows P h s =
      Grows-then_do 0 0 s.mem.sent (settled (with_mem s.mem (node.wait_for_receipt h s.env))) _
        (Grows-settled 0 s.mem.sent (with_mem s.mem (node.wait_for_receipt h s.env))
          (Grows-with_mem 0 s.mem (node.wait_for_receipt h s.env)))
        (elim [
          | value receipt ↦ λ t _. Grows-same 0 t.mem.sent
          | failure x ↦ λ t _. elim (Bool-cases (is_timeout x)) [
            | inl c ↦ rw c (Grows-same 0 t.mem.sent)
            | inr c ↦ rw c (Grows-same 0 t.mem.sent)
          ]
        ])

  -- Whatever the node answers, if `latest` is the nonce that it reports, then each broadcast of a run
  -- carries that nonce and the caller's parameters, either with no fees set by the manager or with
  -- fees whose priority part is at most the whole and the whole at most the ceiling, and which replace
  -- the fees on record for the nonce, if there is a record; and there are at most `attempts` + 1.
  pub transact_locked-Grows :
      (call : C) (params : TxParams) (high_priority : Bool) (s : Sys Manager W) (latest : ℕ) (w : W)
      → node.latest_count s.env ≡ done latest w
      → Grows
          (Submitted node settings call params latest (lookup latest s.mem.records))
          (settings.attempts + 1)
          s.mem.sent
          (after (transact_locked node settings call params high_priority s)).mem.sent
  unfolding transact_locked
  transact_locked-Grows call params high_priority s latest w e = rw e (
      Grows-weaken (0 + (settings.attempts + 1)) (settings.attempts + 1) (omega arith) (
        Grows-then_do 0 (settings.attempts + 1) s.mem.sent (with_mem s.mem (node.pending_count w)) _
          (Grows-with_mem 0 s.mem (node.pending_count w))
          (λ pending t h.
            let same : t.mem ≡ s.mem = with_mem_same s.mem (node.pending_count w) h in
            let kept =
              lookup-filter (leb latest) latest t.mem.records
                (le→leb latest latest (omega arith)) in
            let u : Sys Manager W = record t { mem = forget_mined latest t.mem } in
            let submitted = submit-Grows node settings call params latest high_priority pending u in
            let on_record =
              Submitted node settings call params latest (lookup latest s.mem.records) in
            Grows-weaken (settings.attempts + 1 + 0) (settings.attempts + 1) (omega arith) (
              Grows-then_do (settings.attempts + 1) 0 t.mem.sent
                (submit node settings call params high_priority latest pending u) _
                (rw (← same, ← kept) submitted)
                (elim [
                  | none ↦ λ v _. Grows-same 0 v.mem.sent
                  | some hash ↦ λ v _. wait_for_receipt-Grows on_record hash v
                ])))))

  -- If the simulation raises, nothing is broadcast, no record changes, and the exception goes on.
  pub transact_estimate_failed :
      (call : C) (params : TxParams) (high_priority : Bool) (s : Sys Manager W) (x : Exn) (w : W)
      → node.estimate_gas call params s.env ≡ raised x w
      → transact node settings call (some params) high_priority true s
        ≡ raised x (record s { env = w })
  unfolding transact
  transact_estimate_failed call params high_priority s x w e = rw e refl
