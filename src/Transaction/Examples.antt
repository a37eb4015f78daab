-- ===== src/Transaction/Examples.antt =====
-- Runs of the transaction code on concrete data, and its theorems at concrete inputs.
use v3_keeper.Base.{
  inl, ℕ, ◌+◌, ◌*◌, ◌≤◌, ◌≡◌, refl, ◌↔◌, true, false, [], ◌∷◌, none, some, arith, done, raised, Sys,
  RpcError, All, after, runtime_error,
}
use v3_keeper.Transaction.Rounding.{ceil_mul}
use v3_keeper.Transaction.Fees.{
  TxParams, Fees, from_tx_params, bump_value, replacement_min, read_fees, with_fees, bump, max_with,
  replaces,
}
use v3_keeper.Transaction.Fees.Laws.{
  IsCapped, replaces-raises, replaces-max_with-bump, read_fees-with_fees,
}
use v3_keeper.Transaction.Rejection.{codes, is_fee_too_low_error}
use v3_keeper.Transaction.Rejection.Laws.{HoldsOne, is_fee_too_low_error_iff}
use v3_keeper.Transaction.Manager.{Manager, Node, Settings, no_params, transact_locked, transact}
use v3_keeper.Transaction.Manager.Grows.{Grows}
use v3_keeper.Transaction.Manager.Safety.{Submitted}
use v3_keeper.Transaction.Manager.Run.{transact_locked-Grows}
use v3_keeper.Transaction.Manager.Records.{IsReadable, IsLive}
use v3_keeper.Transaction.Manager.Invariant.{transact_locked-IsReadable, transact_locked-IsLive}

-- Python: ceil(100 * 1.1) == 111, ceil(10 * 1.1) == 11, ceil(100 * 1.125) == 113.
python_products : (replacement_min 100 ≡ 111) × (replacement_min 10 ≡ 11) × (bump_value 100 ≡ 113)
unfolding replacement_min bump_value ceil_mul
python_products = (refl, refl, refl)

abbrev old_fees : Fees
old_fees = record { max_fee_per_gas = 1000; fee_per_gas = 100; priority_fee_per_gas = 10 }

abbrev new_fees : Fees
new_fees = record { max_fee_per_gas = 1000; fee_per_gas = 120; priority_fee_per_gas = 12 }

new-replaces-old : replaces new_fees old_fees ≡ true
unfolding replaces ceil_mul
new-replaces-old = refl

replaces-raises_example : (11 * 100 ≤ 10 * 120) × (11 * 10 ≤ 10 * 12)
replaces-raises_example =
    replaces-raises new_fees old_fees (omega arith) (omega arith) new-replaces-old

old_fees-IsCapped : IsCapped old_fees
old_fees-IsCapped = omega arith

replaces-max_with-bump_example : replaces (max_with new_fees (bump old_fees)) old_fees ≡ true
replaces-max_with-bump_example =
    replaces-max_with-bump new_fees old_fees old_fees-IsCapped (omega arith) refl (omega arith)

read_fees-with_fees_example : read_fees 1000 (with_fees no_params old_fees) ≡ some old_fees
read_fees-with_fees_example = read_fees-with_fees no_params old_fees old_fees-IsCapped

abbrev geth_error : RpcError
geth_error = record {
  error_object = some (some (codes "replacement transaction Underpriced"));
  text = [];
}

geth_error_low : is_fee_too_low_error geth_error ≡ true
unfolding is_fee_too_low_error
geth_error_low = refl

is_fee_too_low_error_iff_example :
    (is_fee_too_low_error geth_error ≡ true)
    ↔ HoldsOne
        (codes "feetoolow"
          ∷ codes "fee too low"
          ∷ codes "underpriced"
          ∷ codes "replacementnotallowed"
          ∷ codes "could not replace"
          ∷ [])
        (codes "replacement transaction Underpriced")
is_fee_too_low_error_iff_example =
    is_fee_too_low_error_iff geth_error (codes "replacement transaction Underpriced") (inl refl)

-- A node with a transaction stuck at nonce 5; the world counts the broadcasts.
abbrev stuck_node : Node ℕ ℕ
stuck_node = record {
  latest_count = λ w. done 5 w;
  pending_count = λ w. done 6 w;
  high_priority_tx_params = λ w. done (with_fees no_params new_fees) w;
  estimate_gas = λ call p w. raised (runtime_error "reverted") w;
  send = λ call p w. done 77 (w + 1);
  wait_for_receipt = λ h w. done (record { status = true; transaction_hash = h }) w;
  sleep = λ w. done tt w;
}

abbrev settings : Settings
settings = record { ceiling = 1000; attempts = 5 }

abbrev before : Sys Manager ℕ
before = record {
  mem = record {
    records = (5, with_fees no_params old_fees) ∷ (4, with_fees no_params old_fees) ∷ [];
    sent = [];
  };
  env = 0;
}

abbrev broadcast_params : TxParams
broadcast_params = record no_params {
  nonce = some 5;
  max_fee_per_gas = some 120;
  max_priority_fee_per_gas = some 12;
}

-- The stuck transaction is replaced, its record too, and the mined nonce is forgotten.
replaces_stuck :
    transact stuck_node settings 0 none false false before
    ≡ done (some (record { status = true; transaction_hash = 77 })) (record {
      mem = record { records = (5, broadcast_params) ∷ []; sent = broadcast_params ∷ [] };
      env = 1;
    })
unfolding transact with_fees from_tx_params replaces max_with bump ceil_mul
replaces_stuck = refl

transact_locked-Grows_example :
    Grows
      (Submitted stuck_node settings 0 no_params 5 (some (with_fees no_params old_fees)))
      6
      []
      (after (transact_locked stuck_node settings 0 no_params false before)).mem.sent
transact_locked-Grows_example =
    transact_locked-Grows stuck_node settings 0 no_params false before 5 0 refl

before-IsReadable : All (IsReadable 1000) before.mem.records
unfolding read_fees with_fees
before-IsReadable = ((old_fees, refl), ((old_fees, refl), tt))

transact_locked-IsReadable_example :
    All
      (IsReadable 1000)
      (after (transact_locked stuck_node settings 0 no_params false before)).mem.records
transact_locked-IsReadable_example =
    transact_locked-IsReadable stuck_node settings 0 no_params false before before-IsReadable

transact_locked-IsLive_example :
    All
      (IsLive 1000 5)
      (after (transact_locked stuck_node settings 0 no_params false before)).mem.records
transact_locked-IsLive_example =
    transact_locked-IsLive stuck_node settings 0 no_params false before 5 6 0 0 refl refl
      before-IsReadable
