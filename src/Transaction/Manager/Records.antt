-- ===== src/Transaction/Manager/Records.antt =====
-- The records that `TransactionManager` keeps: which ones a run may leave.
use v3_keeper.Base.{
  ℕ, zero, suc, ◌≤◌, ◌≡◌, refl, List, Option, none, some, arith, lookup, insert, leb, leb→le,
  filter, [], ◌∷◌, Bool-cases, Option-cases, Outcome, Sys, value, failure, All, All-insert,
  with_mem, settled, after, after-then_do, after-settled, after-with_mem, inl, inr, ◌==◌,
}
use v3_keeper.Transaction.Fees.{TxParams, Fees, read_fees, from_tx_params, with_fees}
use v3_keeper.Transaction.Manager.{
  Manager, Node, Settings, is_low_fee, is_timeout, try_send, broadcast, replacement_fees,
  submit_with_fees, submit_high_priority, pause, default_gas_loop, wait_for_receipt,
}

-- The parameters hold both fees, so that the next run can read them.
abbrev pub IsReadable : ℕ → ℕ × TxParams → Type 0
IsReadable ceiling e = (f : Fees) × (read_fees ceiling e.1 ≡ some f)

-- A record for a nonce that is not yet mined.
abbrev pub IsLive : ℕ → ℕ → ℕ × TxParams → Type 0
IsLive ceiling latest e = (latest ≤ e.0) × IsReadable ceiling e

read_fees-with_fees_any :
    (ceiling : ℕ) (p : TxParams) (f : Fees)
    → (g : Fees) × (read_fees ceiling (with_fees p f) ≡ some g)
unfolding read_fees with_fees
read_fees-with_fees_any ceiling p f = (_, refl)

pub forget_mined-IsLive :
    (ceiling latest : ℕ) (r : List (ℕ × TxParams))
    → All (IsReadable ceiling) r
    → All (IsLive ceiling latest) (filter (λ e. leb latest e.0) r)
forget_mined-IsLive ceiling latest [] h = tt
forget_mined-IsLive ceiling latest (e ∷ r) (he, h) = elim (Bool-cases (leb latest e.0)) [
  | inl c ↦ rw c ((leb→le latest e.0 c, he), forget_mined-IsLive ceiling latest r h)
  | inr c ↦ rw c (forget_mined-IsLive ceiling latest r h)
]

module _ {C W : Type 0} (node : Node C W) (settings : Settings) (latest : ℕ) where
  abbrev pub Live : List (ℕ × TxParams) → Type 0
  Live = All (IsLive settings.ceiling latest)

  abbrev pub LiveState : Sys Manager W → Type 0
  LiveState s = Live s.mem.records

  ext-Live :
      {A : Type 0} (m : Manager) (o : Outcome W A)
      → Live m.records
      → LiveState (after (with_mem m o))
  ext-Live m o h = after-with_mem {Q = Manager} (λ m. Live m.records) m o h

  try_send-Live :
      (call : C) (p : TxParams) (s : Sys Manager W)
      → LiveState s
      → LiveState (after (try_send node settings call p s))
  unfolding try_send
  try_send-Live call p s h =
      after-settled LiveState (with_mem _ (node.send call p s.env)) (ext-Live _ _ h)

  keep_record-Live :
      (params : TxParams) (f : Fees) (r : List (ℕ × TxParams))
      → Live r
      → Live (insert latest (with_fees (record params { nonce = some latest }) f) r)
  keep_record-Live params f r h =
      All-insert (IsLive settings.ceiling latest) latest _ r
        (λ j e. (omega arith, read_fees-with_fees_any settings.ceiling _ f)) h

  broadcast-Live :
      (call : C) (params : TxParams) (f : Fees) (s : Sys Manager W)
      → LiveState s
      → LiveState (after (broadcast node settings call params latest f s))
  unfolding broadcast
  broadcast-Live call params f s h =
      let p = with_fees (record params { nonce = some latest }) f in
      after-then_do LiveState (try_send node settings call p s) _ (try_send-Live call p s h) (elim [
        | value hash ↦ λ t _ k. keep_record-Live params f t.mem.records k
        | failure x ↦ λ t _ k. elim (Bool-cases (is_low_fee x)) [
          | inl c ↦ rw c (keep_record-Live params f t.mem.records k)
          | inr c ↦ rw c k
        ]
      ])

  replacement_fees-Live :
      (prev : Option TxParams) (fees : Fees) (s : Sys Manager W)
      → LiveState s
      → LiveState (after (replacement_fees node settings prev fees s))
  unfolding replacement_fees from_tx_params
  replacement_fees-Live none fees s h = h
  replacement_fees-Live (some prev) fees s h =
      elim (Option-cases (read_fees settings.ceiling prev)) [
        | inl unread ↦ rw (unread, from_tx_params) h
        | inr (g, read) ↦ rw (read, from_tx_params) h
      ]

  submit_with_fees-Live :
      (call : C) (params : TxParams) (prev : Option TxParams) (fees : Fees) (s : Sys Manager W)
      → LiveState s
      → LiveState (after (submit_with_fees node settings call params latest prev fees s))
  unfolding submit_with_fees
  submit_with_fees-Live call params prev fees s h =
      after-then_do LiveState (replacement_fees node settings prev fees s) _
        (replacement_fees-Live prev fees s h)
        (elim [ none ↦ λ t _ k. k | some f ↦ λ t _ k. broadcast-Live call params f t k ])

  pub submit_high_priority-Live :
      (call : C) (params : TxParams) (s : Sys Manager W)
      → LiveState s
      → LiveState (after (submit_high_priority node settings call params latest s))
  unfolding submit_high_priority from_tx_params
  submit_high_priority-Live call params s h =
      after-then_do LiveState (with_mem s.mem (node.high_priority_tx_params s.env)) _
        (ext-Live s.mem (node.high_priority_tx_params s.env) h)
        λ gas t _ k. elim (Option-cases (read_fees settings.ceiling gas)) [
          | inl unread ↦ rw (unread, from_tx_params) k
          | inr (fees, read) ↦
              rw (read, from_tx_params)
                (submit_with_fees-Live call params (lookup latest t.mem.records) fees t k)
        ]

  pause-Live :
      (left : ℕ) (s : Sys Manager W) → LiveState s → LiveState (after (pause node settings left s))
  unfolding pause
  pause-Live left s h = elim (Bool-cases (left == 0)) [
    | inl e ↦ rw e h
    | inr e ↦ rw e (ext-Live s.mem (node.sleep s.env) h)
  ]

  pub default_gas_loop-Live :
      (left : ℕ) (call : C) (p : TxParams) (s : Sys Manager W)
      → LiveState s
      → LiveState (after (default_gas_loop node settings left call p s))
  unfolding default_gas_loop
  default_gas_loop-Live zero call p s h = h
  default_gas_loop-Live (suc left) call p s h =
      after-then_do LiveState (try_send node settings call p s) _ (try_send-Live call p s h) (elim [
        | value hash ↦ λ t _ k. k
        | failure x ↦ λ t _ k. elim (Bool-cases (is_low_fee x)) [
          | inl c ↦ rw c (
              after-then_do LiveState (pause node settings left t) _ (pause-Live left t k)
                (λ _ u _. default_gas_loop-Live left call p u))
          | inr c ↦ rw c k
        ]
      ])

  pub wait_for_receipt-Live :
      (hash : ℕ) (s : Sys Manager W)
      → LiveState s
      → LiveState (after (wait_for_receipt node settings hash s))
  unfolding wait_for_receipt
  wait_for_receipt-Live hash s h =
      after-then_do LiveState (settled (with_mem s.mem (node.wait_for_receipt hash s.env))) _
        (after-settled LiveState (with_mem s.mem (node.wait_for_receipt hash s.env))
          (ext-Live s.mem _ h))
        (elim [
          | value receipt ↦ λ t _ k. k
          | failure x ↦
              λ t _ k. elim (Bool-cases (is_timeout x)) [ inl c ↦ rw c k | inr c ↦ rw c k ]
        ])
