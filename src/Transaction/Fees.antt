-- ===== src/Transaction/Fees.antt =====
-- The class `Fees` of common/transaction.py. `ceiling` is `Web3.to_wei(MAX_FEE_PER_GAS_GWEI, 'gwei')`
-- where the caller gives no `max_fee_per_gas`.
pub mod Laws
use v3_keeper.Base.{ℕ, ◌+◌, ◌*◌, min, max, Bool, ◌&&◌, leb, Option, none, some}
use v3_keeper.Base.{Exn, key_error, M, pure, raise, Outcome, done, raised}
use v3_keeper.Transaction.Rounding.{ceil_mul}

-- The doubles 1.125 and 1.1, as numerators over 2 ^ 52.
abbrev pub replacement_gas_bump : ℕ
replacement_gas_bump = 5066549580791808

abbrev pub min_replacement_ratio : ℕ
min_replacement_ratio = 4953959590107546

-- `web3.types.TxParams`, the keys that the program sets or reads.
pub record TxParams : Type 0 where
  pub sender : Option ℕ
  pub amount : Option ℕ
  pub nonce : Option ℕ
  pub max_fee_per_gas : Option ℕ
  pub max_priority_fee_per_gas : Option ℕ

pub record Fees : Type 0 where
  pub max_fee_per_gas : ℕ
  pub fee_per_gas : ℕ
  pub priority_fee_per_gas : ℕ

-- `_cap`
pub cap_fees : Fees → Fees
cap_fees f =
    let fee = min f.fee_per_gas f.max_fee_per_gas in
    record f { fee_per_gas = fee; priority_fee_per_gas = min f.priority_fee_per_gas fee }

-- `__init__`
unfoldable pub init_fees : ℕ → ℕ → ℕ → Fees
unfolding cap_fees
init_fees fee priority ceiling =
    cap_fees
      (record { max_fee_per_gas = ceiling; fee_per_gas = fee; priority_fee_per_gas = priority })

-- The fees under the two keys, if both are there.
unfoldable pub read_fees : ℕ → TxParams → Option Fees
unfolding init_fees
read_fees ceiling p = elim p.max_fee_per_gas [
  | none ↦ none
  | some fee ↦ elim p.max_priority_fee_per_gas [
    | none ↦ none
    | some priority ↦ some (init_fees fee priority ceiling)
  ]
]

-- A missing key raises `KeyError`.
unfoldable pub from_tx_params : {S : Type 0} → ℕ → TxParams → M S Fees
unfolding read_fees
from_tx_params ceiling p = elim (read_fees ceiling p) [ none ↦ raise key_error | some f ↦ pure f ]

-- `{**params, **fees.to_tx_params()}`
unfoldable pub with_fees : TxParams → Fees → TxParams
with_fees p f = record p {
  max_fee_per_gas = some f.fee_per_gas;
  max_priority_fee_per_gas = some f.priority_fee_per_gas;
}

-- `_bump`
unfoldable pub bump_value : ℕ → ℕ
bump_value v = ceil_mul v replacement_gas_bump

unfoldable pub bump : Fees → Fees
unfolding init_fees bump_value
bump f = init_fees (bump_value f.fee_per_gas) (bump_value f.priority_fee_per_gas) f.max_fee_per_gas

unfoldable pub max_with : Fees → Fees → Fees
unfolding init_fees
max_with f other =
    init_fees (max f.fee_per_gas other.fee_per_gas)
      (max f.priority_fee_per_gas other.priority_fee_per_gas) f.max_fee_per_gas

-- The least fee that `replaces` accepts after the fee `v`.
unfoldable pub replacement_min : ℕ → ℕ
replacement_min v = ceil_mul v min_replacement_ratio

unfoldable pub replaces : Fees → Fees → Bool
unfolding replacement_min
replaces f prev =
    leb (replacement_min prev.fee_per_gas) f.fee_per_gas
    && leb (replacement_min prev.priority_fee_per_gas) f.priority_fee_per_gas
