-- ===== src/Transaction/Manager/Safety.antt =====
-- What a run of `TransactionManager.transact` may hand to the node, whatever the node answers.
use v3_keeper.Base.{
  ℕ, zero, suc, ◌+◌, ◌≡◌, refl, ◌⊎◌, inl, inr, Bool, true, false, List, Option, none, some, arith,
  lookup, if◌then◌else◌, ◌==◌, Bool-cases, Option-cases, ltb, done, M, ◌>>=◌, Sys, value, failure,
  pure, with_mem, after, after-then_do, after-settled, after-with_mem, with_mem_same, done-after,
}
use v3_keeper.Transaction.Fees.{TxParams, Fees, read_fees, from_tx_params, with_fees}
use v3_keeper.Transaction.Fees.Laws.{IsCapped}
use v3_keeper.Transaction.Manager.{
  Manager, Node, Settings, is_low_fee, try_send, replacement_fees, submit_with_fees,
  submit_high_priority, default_gas_loop, submit_default_gas, submit, pause,
}
use v3_keeper.Transaction.Manager.Grows.{
  Grows, Grows-same, Grows-weaken, Grows-map, Grows-with_mem, Grows-then_do,
}
use v3_keeper.Transaction.Manager.Replacement.{
  IsUsable, broadcast-Grows, default_gas_loop-Grows, replacement_fees-Grows,
  replacement_fees-IsUsable, read_fees-IsCapped,
}

module _ {C W : Type 0} (node : Node C W) (settings : Settings) where
  -- The attempts with default gas leave no record.
  abbrev HasRecords : List (ℕ × TxParams) → Sys Manager W → Type 0
  HasRecords r s = s.mem.records ≡ r

  pause-records :
      (r : List (ℕ × TxParams)) (left : ℕ) (s : Sys Manager W)
      → HasRecords r s
      → HasRecords r (after (pause node settings left s))
  unfolding pause
  pause-records r left s h = elim (Bool-cases (left == 0)) [
    | inl e ↦ rw e h
    | inr e ↦ rw e (after-with_mem (λ m. m.records ≡ r) s.mem (node.sleep s.env) h)
  ]

  default_gas_loop-records :
      (r : List (ℕ × TxParams)) (left : ℕ) (call : C) (p : TxParams) (s : Sys Manager W)
      → HasRecords r s
      → HasRecords r (after (default_gas_loop node settings left call p s))
  unfolding default_gas_loop try_send
  default_gas_loop-records r zero call p s h = h
  default_gas_loop-records r (suc left) call p s h =
      after-then_do (HasRecords r) (try_send node settings call p s) _
        (after-settled (HasRecords r) (with_mem _ (node.send call p s.env))
          (after-with_mem {Q = Manager} (λ m. m.records ≡ r) _ (node.send call p s.env) h))
        (elim [
          | value hash ↦ λ t _ k. k
          | failure x ↦ λ t _ k. elim (Bool-cases (is_low_fee x)) [
            | inl c ↦ rw c (
                after-then_do (HasRecords r) (pause node settings left t) _
                  (pause-records r left t k) (λ _ u _. default_gas_loop-records r left call p u))
            | inr c ↦ rw c k
          ]
        ])

  module _ (call : C) (params : TxParams) (n : ℕ) where
    -- A broadcast with high priority fees.
    abbrev pub Prioritised : Option TxParams → TxParams → Type 0
    Prioritised prev p =
        (f : Fees) × (p ≡ with_fees (record params { nonce = some n }) f)
        × IsUsable settings.ceiling prev f

    submit_with_fees-Grows :
        (prev : Option TxParams) (fees : Fees) (s : Sys Manager W)
        → IsCapped fees
        → fees.max_fee_per_gas ≡ settings.ceiling
        → Grows
            (Prioritised prev)
            1
            s.mem.sent
            (after (submit_with_fees node settings call params n prev fees s)).mem.sent
    unfolding submit_with_fees
    submit_with_fees-Grows prev fees s c e =
        Grows-then_do 0 1 s.mem.sent (replacement_fees node settings prev fees s) _
          (replacement_fees-Grows node settings (Prioritised prev) prev fees s)
          (elim [
            | none ↦ λ t _. Grows-same 1 t.mem.sent
            | some f ↦ λ t h.
                let (usable, same) =
                  replacement_fees-IsUsable node settings prev fees f s t c e h in
                broadcast-Grows node settings (Prioritised prev) call params n f t (f, refl, usable)
          ])

    pub submit_high_priority-Grows :
        (s : Sys Manager W)
        → Grows
            (Prioritised (lookup n s.mem.records))
            1
            s.mem.sent
            (after (submit_high_priority node settings call params n s)).mem.sent
    unfolding submit_high_priority from_tx_params
    submit_high_priority-Grows s =
        Grows-then_do 0 1 s.mem.sent (with_mem s.mem (node.high_priority_tx_params s.env)) _
          (Grows-with_mem 0 s.mem (node.high_priority_tx_params s.env))
          λ gas t h. elim (Option-cases (read_fees settings.ceiling gas)) [
            | inl unread ↦ rw (unread, from_tx_params) (Grows-same 1 t.mem.sent)
            | inr (fees, read) ↦
                let same = with_mem_same s.mem (node.high_priority_tx_params s.env) h in
                let (c, e) = read_fees-IsCapped settings.ceiling gas read in
                rw (read, from_tx_params)
                  (rw (← same) (submit_with_fees-Grows (lookup n t.mem.records) fees t c e))
          ]

    -- A broadcast of the call: with the caller's parameters alone, or with high priority fees.
    abbrev pub Submitted : Option TxParams → TxParams → Type 0
    Submitted prev p = (p ≡ record params { nonce = some n }) ⊎ Prioritised prev p

    Grows-Prioritised :
        (prev : Option TxParams) (k : ℕ) {a b : List TxParams}
        → Grows (Prioritised prev) 1 a b
        → Grows (Submitted prev) (k + 1) a b
    Grows-Prioritised prev k g =
        Grows-weaken 1 (k + 1) (omega arith)
          (Grows-map (Prioritised prev) (Submitted prev) 1 (λ p h. inr h) g)

    pub submit-Grows :
        (high_priority : Bool) (pending : ℕ) (s : Sys Manager W)
        → Grows
            (Submitted (lookup n s.mem.records))
            (settings.attempts + 1)
            s.mem.sent
            (after (submit node settings call params high_priority n pending s)).mem.sent
    unfolding submit
    submit-Grows high_priority pending s = elim (Bool-cases (ltb n pending)) [
      | inl stuck ↦ rw stuck first
      | inr free ↦ rw free (if_Grows high_priority)
    ]
      where
        r : List (ℕ × TxParams)
        r = s.mem.records

        first :
            Grows
              (Submitted (lookup n r))
              (settings.attempts + 1)
              s.mem.sent
              (after (submit_high_priority node settings call params n s)).mem.sent
        first = Grows-Prioritised (lookup n r) settings.attempts (submit_high_priority-Grows s)

        plain : TxParams
        plain = record params { nonce = some n }

        escalate :
            (o : Option ℕ) (t : Sys Manager W)
            → default_gas_loop node settings settings.attempts call plain s ≡ done o t
            → Grows
                (Submitted (lookup n r))
                1
                t.mem.sent
                (after (
                  (elim o as (λ _. M (Sys Manager W) (Option ℕ)) [
                    | some hash ↦ pure (some hash)
                    | none ↦ submit_high_priority node settings call params n
                  ])
                    t)).mem.sent
        escalate (some hash) t h = Grows-same 1 t.mem.sent
        escalate none t h =
            let same : t.mem.records ≡ r =
              rw (done-after _ h) at
                (default_gas_loop-records r settings.attempts call plain s refl) in
            Grows-Prioritised (lookup n r) 0 (rw (← same) (submit_high_priority-Grows t))

        if_Grows :
            (high : Bool)
            → Grows
                (Submitted (lookup n r))
                (settings.attempts + 1)
                s.mem.sent
                (after (
                  (if high then submit_high_priority node settings call params n else do
                    h ← submit_default_gas node settings call params n
                    elim h [
                      | some hash ↦ pure (some hash)
                      | none ↦ submit_high_priority node settings call params n
                    ])
                    s)).mem.sent
        if_Grows true = first
        if_Grows false =
            Grows-then_do settings.attempts 1 s.mem.sent
              (default_gas_loop node settings settings.attempts call plain s) _
              (default_gas_loop-Grows node settings (Submitted (lookup n r)) settings.attempts call
                plain s (inl refl))
              escalate
