-- ===== src/Transaction/Manager.antt =====
-- The class `TransactionManager` of common/transaction.py, over an execution node that is not part of
-- the program: what it answers and how it changes are parameters. The lock makes each call of
-- `transact` one step, so a call is an action on the manager's state and the node.
pub mod Grows
pub mod Replacement
pub mod Safety
pub mod Run
pub mod Records
pub mod Invariant
pub mod Soundness
use mathlib.Core.Option.{get_or}
use v3_keeper.Base.{
  ℕ, zero, suc, ◌==◌, ltb, leb, Bool, true, false, List, [], ◌∷◌, ◌++◌, Option, none, some, filter,
  lookup, insert, if◌then◌else◌, Exn, rpc_error, time_exhausted, Outcome, done, raised, M, pure,
  raise, ◌>>=◌, ◌>>◌, Settled, value, failure, settle, Sys, ext, gets, modify,
}
use v3_keeper.Transaction.Fees.{TxParams, Fees, from_tx_params, with_fees, bump, max_with, replaces}
use v3_keeper.Transaction.Rejection.{is_fee_too_low_error}

-- `web3.types.TxReceipt`, the keys that the program reads; a hash stands as a number.
pub record Receipt : Type 0 where
  pub status : Bool
  pub transaction_hash : ℕ

-- `execution_client`, `gas_manager` and the contract calls `C`, over the state `W` of the outside world.
pub record Node (C W : Type 0) : Type 0 where
  pub latest_count : M W ℕ
  pub pending_count : M W ℕ
  pub high_priority_tx_params : M W TxParams
  pub estimate_gas : C → TxParams → M W (Unit {0})
  pub send : C → TxParams → M W ℕ
  pub wait_for_receipt : ℕ → M W Receipt
  pub sleep : M W (Unit {0})

-- MAX_FEE_PER_GAS_GWEI in wei, and ATTEMPTS_WITH_DEFAULT_GAS.
pub record Settings : Type 0 where
  pub ceiling : ℕ
  pub attempts : ℕ

-- `records` is `_nonce_to_tx_params`. `sent` logs the parameters of each call of
-- `tx_function.transact`, in order; the code keeps no such log.
pub record Manager : Type 0 where
  pub records : List (ℕ × TxParams)
  pub sent : List TxParams

-- Records of mined nonces are forgotten.
abbrev pub forget_mined : ℕ → Manager → Manager
forget_mined latest m = record m { records = filter (λ e. leb latest e.0) m.records }

abbrev pub no_params : TxParams
no_params = record {
  sender = none;
  amount = none;
  nonce = none;
  max_fee_per_gas = none;
  max_priority_fee_per_gas = none;
}

-- What the two `except` clauses of the submissions, and the one of the receipt, handle.
unfoldable pub is_low_fee : Exn → Bool
is_low_fee (rpc_error e) = is_fee_too_low_error e
is_low_fee e = false

pub is_timeout : Exn → Bool
is_timeout time_exhausted = true
is_timeout e = false

module _ {C W : Type 0} (node : Node C W) (settings : Settings) where
  -- `tx_function.transact(params)`, with an exception as a value for the `except` clause.
  pub try_send : C → TxParams → M (Sys Manager W) (Settled ℕ)
  try_send call p = do
    modify (λ m. record m { sent = m.sent ++ (p ∷ []) })
    settle (ext (node.send call p))

  -- `self._nonce_to_tx_params[nonce] = params`
  abbrev pub keep_record : ℕ → TxParams → M (Sys Manager W) (Unit {0})
  keep_record nonce p = modify (λ m. record m { records = insert nonce p m.records })

  -- The end of `_submit_high_priority`, from the broadcast on.
  pub broadcast : C → TxParams → ℕ → Fees → M (Sys Manager W) (Option ℕ)
  unfolding try_send is_low_fee
  broadcast call params nonce fees = do
    let p = with_fees (record params { nonce = some nonce }) fees
    r ← try_send call p
    elim r [
      | value h ↦ do keep_record nonce p; pure (some h)
      | failure e ↦ if is_low_fee e then (do keep_record nonce p; pure none) else raise e
    ]

  -- The `if prev is not None` of `_submit_high_priority`: the fees to use, if they can replace.
  pub replacement_fees : Option TxParams → Fees → M (Sys Manager W) (Option Fees)
  replacement_fees none fees = pure (some fees)
  replacement_fees (some prev) fees = do
    prev_fees ← from_tx_params settings.ceiling prev
    let bumped = max_with fees (bump prev_fees)
    pure (if replaces bumped prev_fees then some bumped else none)

  -- `_submit_high_priority` from the record on.
  pub submit_with_fees : C → TxParams → ℕ → Option TxParams → Fees → M (Sys Manager W) (Option ℕ)
  unfolding broadcast replacement_fees
  submit_with_fees call params nonce prev fees = do
    usable ← replacement_fees prev fees
    elim usable [ none ↦ pure none | some f ↦ broadcast call params nonce f ]

  pub submit_high_priority : C → TxParams → ℕ → M (Sys Manager W) (Option ℕ)
  unfolding submit_with_fees
  submit_high_priority call params nonce = do
    gas_params ← ext node.high_priority_tx_params
    fees ← from_tx_params settings.ceiling gas_params
    prev ← gets (λ m. lookup nonce m.records)
    submit_with_fees call params nonce prev fees

  -- "skip the last sleep"
  pub pause : ℕ → M (Sys Manager W) (Unit {0})
  pause left = if left == 0 then pure tt else ext node.sleep

  -- The loop of `_submit_default_gas` with the attempts left; no sleep follows the last one.
  pub default_gas_loop : ℕ → C → TxParams → M (Sys Manager W) (Option ℕ)
  unfolding try_send is_low_fee pause
  default_gas_loop zero call p = pure none
  default_gas_loop (suc left) call p = do
    r ← try_send call p
    elim r [
      | value h ↦ pure (some h)
      | failure e ↦ elim (is_low_fee e) [
        | true ↦ do pause left; default_gas_loop left call p
        | false ↦ raise e
      ]
    ]

  abbrev pub submit_default_gas : C → TxParams → ℕ → M (Sys Manager W) (Option ℕ)
  submit_default_gas call params nonce =
      default_gas_loop settings.attempts call (record params { nonce = some nonce })

  pub wait_for_receipt : ℕ → M (Sys Manager W) (Option Receipt)
  unfolding is_timeout
  wait_for_receipt h = do
    r ← settle (ext (node.wait_for_receipt h))
    elim r [
      | value receipt ↦ pure (if receipt.status then some receipt else none)
      | failure e ↦ if is_timeout e then pure none else raise e
    ]

  -- The choice between the two gas strategies in `_transact`.
  pub submit : C → TxParams → Bool → ℕ → ℕ → M (Sys Manager W) (Option ℕ)
  unfolding submit_high_priority default_gas_loop
  submit call params high_priority latest pending =
      if ltb latest pending
      then submit_high_priority call params latest
      else if high_priority
      then submit_high_priority call params latest
      else do
        h ← submit_default_gas call params latest
        elim h [ some hash ↦ pure (some hash) | none ↦ submit_high_priority call params latest ]

  -- `_transact`
  pub transact_locked : C → TxParams → Bool → M (Sys Manager W) (Option Receipt)
  unfolding submit wait_for_receipt
  transact_locked call params high_priority = do
    latest ← ext node.latest_count
    pending ← ext node.pending_count
    modify (forget_mined latest)
    tx_hash ← submit call params high_priority latest pending
    elim tx_hash [ none ↦ pure none | some h ↦ wait_for_receipt h ]

  unfoldable pub transact : C → Option TxParams → Bool → Bool → M (Sys Manager W) (Option Receipt)
  unfolding transact_locked
  transact call tx_params high_priority estimate_gas = do
    let params = get_or tx_params no_params
    if estimate_gas then ext (node.estimate_gas call params) else pure tt
    transact_locked call params high_priority
