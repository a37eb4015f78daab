-- ===== src/Transaction/Manager/Replacement.antt =====
-- The fees of a replacement, and what a single broadcast of `TransactionManager` adds to the log.
use v3_keeper.Base.{
  ℕ, zero, suc, ◌+◌, ◌≡◌, ◌∙◌, inl, inr, true, [], ◌∷◌, ◌++◌, Option, none, some, arith, ◌==◌,
  Bool-cases, Option-cases, done, Sys, value, failure, with_mem, after,
}
use v3_keeper.Transaction.Fees.{
  TxParams, Fees, read_fees, from_tx_params, with_fees, bump, max_with, replaces, init_fees,
}
use v3_keeper.Transaction.Fees.Laws.{IsCapped, max_with-IsCapped}
use v3_keeper.Transaction.Manager.{
  Manager, Node, Settings, is_low_fee, try_send, broadcast, replacement_fees, default_gas_loop,
  pause,
}
use v3_keeper.Transaction.Manager.Grows.{
  Grows, Grows-same, Grows-one, Grows-trans, Grows-weaken, Grows-with_mem, Grows-settled,
  Grows-then_do,
}

-- The fees `f` may follow the parameters that are on record for the nonce.
abbrev pub Follows : ℕ → Option TxParams → Fees → Type 0
Follows ceiling none f = Unit
Follows ceiling (some prev) f =
    (g : Fees) × (read_fees ceiling prev ≡ some g) × (replaces f g ≡ true)

-- High priority fees: under the ceiling, the priority part under the whole, and a valid replacement.
pub record IsUsable (ceiling : ℕ) (prev : Option TxParams) (f : Fees) : Type 0 where
  pub ceiling_is : f.max_fee_per_gas ≡ ceiling
  pub capped : IsCapped f
  pub follows : Follows ceiling prev f

pub read_fees-IsCapped :
    (ceiling : ℕ) (p : TxParams) {f : Fees}
    → read_fees ceiling p ≡ some f
    → IsCapped f × (f.max_fee_per_gas ≡ ceiling)
unfolding read_fees init_fees
read_fees-IsCapped ceiling p h = ground arith

module _ {C W : Type 0} (node : Node C W) (settings : Settings) where
  module _ (P : TxParams → Type 0) where
    try_send-Grows :
        (call : C) (p : TxParams) (s : Sys Manager W)
        → P p
        → Grows P 1 s.mem.sent (after (try_send node settings call p s)).mem.sent
    unfolding try_send
    try_send-Grows call p s h =
        let l = s.mem.sent ++ (p ∷ []) in
        let m = record s.mem { sent = l } in
        let o = with_mem m (node.send call p s.env) in
        Grows-settled 1 s.mem.sent o
          (Grows-trans 1 0 (Grows-one p s.mem.sent h) (Grows-with_mem 0 m (node.send call p s.env)))

    pub broadcast-Grows :
        (call : C) (params : TxParams) (n : ℕ) (f : Fees) (s : Sys Manager W)
        → P (with_fees (record params { nonce = some n }) f)
        → Grows P 1 s.mem.sent (after (broadcast node settings call params n f s)).mem.sent
    unfolding broadcast
    broadcast-Grows call params n f s h =
        let p = with_fees (record params { nonce = some n }) f in
        Grows-then_do 1 0 s.mem.sent (try_send node settings call p s) _ (try_send-Grows call p s h)
          (elim [
            | value hash ↦ λ t e. Grows-same 0 t.mem.sent
            | failure x ↦ λ t e. elim (Bool-cases (is_low_fee x)) [
              | inl c ↦ rw c (Grows-same 0 t.mem.sent)
              | inr c ↦ rw c (Grows-same 0 t.mem.sent)
            ]
          ])

    pause-Grows :
        (left : ℕ) (s : Sys Manager W)
        → Grows P 0 s.mem.sent (after (pause node settings left s)).mem.sent
    unfolding pause
    pause-Grows left s = elim (Bool-cases (left == 0)) [
      | inl e ↦ rw e (Grows-same 0 s.mem.sent)
      | inr e ↦ rw e (Grows-with_mem 0 s.mem (node.sleep s.env))
    ]

    pub default_gas_loop-Grows :
        (left : ℕ) (call : C) (p : TxParams) (s : Sys Manager W)
        → P p
        → Grows P left s.mem.sent (after (default_gas_loop node settings left call p s)).mem.sent
    unfolding default_gas_loop
    default_gas_loop-Grows zero call p s h = Grows-same 0 s.mem.sent
    default_gas_loop-Grows (suc left) call p s h =
        Grows-weaken (1 + left) (suc left) (omega arith) (
          Grows-then_do 1 left s.mem.sent (try_send node settings call p s) _
            (try_send-Grows call p s h)
            (elim [
              | value hash ↦ λ t e. Grows-same left t.mem.sent
              | failure x ↦ λ t e. elim (Bool-cases (is_low_fee x)) [
                | inl c ↦ rw c (
                    Grows-weaken (0 + left) left (omega arith) (
                      Grows-then_do 0 left t.mem.sent (pause node settings left t) _
                        (pause-Grows left t) (λ _ u _. default_gas_loop-Grows left call p u h)))
                | inr c ↦ rw c (Grows-same left t.mem.sent)
              ]
            ]))

    pub replacement_fees-Grows :
        (prev : Option TxParams) (fees : Fees) (s : Sys Manager W)
        → Grows P 0 s.mem.sent (after (replacement_fees node settings prev fees s)).mem.sent
    unfolding replacement_fees from_tx_params
    replacement_fees-Grows none fees s = Grows-same 0 s.mem.sent
    replacement_fees-Grows (some prev) fees s =
        elim (Option-cases (read_fees settings.ceiling prev)) [
          | inl unread ↦ rw (unread, from_tx_params) (Grows-same 0 s.mem.sent)
          | inr (g, read) ↦ rw (read, from_tx_params) (Grows-same 0 s.mem.sent)
        ]

  -- What `replacement_fees` lets through follows the record, under the ceiling.
  pub replacement_fees-IsUsable :
      (prev : Option TxParams) (fees f : Fees) (s t : Sys Manager W)
      → IsCapped fees
      → fees.max_fee_per_gas ≡ settings.ceiling
      → replacement_fees node settings prev fees s ≡ done (some f) t
      → IsUsable settings.ceiling prev f × (t ≡ s)
  unfolding replacement_fees from_tx_params
  replacement_fees-IsUsable none fees f s t c e h =
      let same : fees ≡ f = cc in
      (rw (← same) (record { ceiling_is = e; capped = c; follows = tt }), cc)
  replacement_fees-IsUsable (some prev) fees f s t c e h =
      elim (Option-cases (read_fees settings.ceiling prev)) [
        | inl none_read ↦ absurd (ground arith)
        | inr (g, read) ↦ elim (Bool-cases (replaces (max_with fees (bump g)) g)) [
          | inl r ↦
              let same : max_with fees (bump g) ≡ f = ground arith in
              (
                rw (← same) (record {
                  ceiling_is = (max_with-IsCapped fees (bump g)).1 ∙ e;
                  capped = (max_with-IsCapped fees (bump g)).0;
                  follows = (g, read, r);
                }),
                ground arith,
              )
          | inr r ↦ absurd (ground arith)
        ]
      ]
