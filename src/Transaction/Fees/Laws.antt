-- ===== src/Transaction/Fees/Laws.antt =====
-- What fee arithmetic guarantees: the invariants that the class states, and the node's 10% rule.
use v3_keeper.Base.{
  ℕ, ◌+◌, ◌*◌, ◌/◌, ◌%◌, ◌^◌, ◌≤◌, ◌<◌, ◌≡◌, true, some, arith, leb→le, le→leb, &&-eq-true,
  &&_intro, leb,
}
use v3_keeper.Transaction.Rounding.Laws.{ceil_mul-lower, ceil_mul-upper}
use native.Mathlib.Decide.{ℕ_discrete}
use v3_keeper.Transaction.Fees.{
  Fees, TxParams, read_fees, with_fees, init_fees, bump_value, bump, max_with, replacement_min,
  replaces,
}

-- Fees up to this bound are computed like in exact arithmetic; it is 281,474 gwei.
abbrev pub safe_fee : ℕ
safe_fee = 2 ^ 48

-- The two invariants of the class.
pub record IsCapped (f : Fees) : Type 0 where
  pub priority_le : f.priority_fee_per_gas ≤ f.fee_per_gas
  pub fee_le : f.fee_per_gas ≤ f.max_fee_per_gas

pub init_fees-IsCapped : (fee priority ceiling : ℕ) → IsCapped (init_fees fee priority ceiling)
unfolding init_fees
init_fees-IsCapped fee priority ceiling = ground arith

pub max_with-IsCapped :
    (f g : Fees) → IsCapped (max_with f g) × ((max_with f g).max_fee_per_gas ≡ f.max_fee_per_gas)
unfolding max_with
max_with-IsCapped f g = ground arith

-- `_bump` is the exact value * 9/8, rounded up.
pub bump_value_exact : (v : ℕ) → v < safe_fee → bump_value v ≡ (9 * v + 7) / 8
unfolding bump_value
bump_value_exact v h = omega (
  arith,
  ceil_mul-lower (9 * v) 49 v 5066549580791808 (omega arith) (omega arith) (omega arith),
  ceil_mul-upper (9 * v) 49 v 5066549580791808 (omega arith) (omega arith) (omega arith),
)

-- The bound that `replaces` computes in doubles is the exact 1.1 * v, rounded up, or one more.
pub replacement_min_bounds :
    (v : ℕ)
    → v < safe_fee
    → (11 * v ≤ 10 * replacement_min v) × (10 * replacement_min v ≤ 11 * v + 10)
unfolding replacement_min
replacement_min_bounds v h =
    let upper =
      ceil_mul-upper (11 * v / 10 + 1) 52 v 4953959590107546 (omega arith) (omega arith)
        (omega arith) in
    elim (ℕ_discrete (11 * v % 10) 0) [
      | yes whole ↦
          let lower =
            ceil_mul-lower (11 * v / 10) 52 v 4953959590107546 (omega arith) (omega arith)
              (omega arith) in
          omega (arith, lower, upper)
      | no part ↦
          let lower =
            ceil_mul-lower (16 * (11 * v / 10) + 1) 48 v 4953959590107546 (omega arith)
              (omega arith) (omega arith) in
          omega (arith, lower, upper)
    ]

pub replacement_min-le-bump_value : (v : ℕ) → v < safe_fee → replacement_min v ≤ bump_value v
unfolding replacement_min
replacement_min-le-bump_value v h = omega (
  arith,
  bump_value_exact v h,
  ceil_mul-upper ((9 * v + 7) / 8) 52 v 4953959590107546 (omega arith) (omega arith) (omega arith),
)

-- A fee that passes `replaces` is at least 10% above the fee that it replaces, in both parts.
pub replaces-raises :
    (f prev : Fees)
    → prev.fee_per_gas < safe_fee
    → prev.priority_fee_per_gas < safe_fee
    → replaces f prev ≡ true
    → (11 * prev.fee_per_gas ≤ 10 * f.fee_per_gas)
      × (11 * prev.priority_fee_per_gas ≤ 10 * f.priority_fee_per_gas)
unfolding replaces
replaces-raises f prev h k r =
    let (a, b) =
      &&-eq-true (leb (replacement_min prev.fee_per_gas) f.fee_per_gas)
        (leb (replacement_min prev.priority_fee_per_gas) f.priority_fee_per_gas) r in
    let low = (replacement_min_bounds prev.fee_per_gas h).0 in
    let low' = (replacement_min_bounds prev.priority_fee_per_gas k).0 in
    (
      omega (arith, leb→le _ f.fee_per_gas a, low),
      omega (arith, leb→le _ f.priority_fee_per_gas b, low'),
    )

replaces_intro :
    (f prev : Fees)
    → replacement_min prev.fee_per_gas ≤ f.fee_per_gas
    → replacement_min prev.priority_fee_per_gas ≤ f.priority_fee_per_gas
    → replaces f prev ≡ true
unfolding replaces
replaces_intro f prev h k = &&_intro (le→leb _ f.fee_per_gas h) (le→leb _ f.priority_fee_per_gas k)

-- The fees that a resubmission uses pass `replaces`, unless the ceiling cuts them.
pub replaces-max_with-bump :
    (f prev : Fees)
    → IsCapped prev
    → (9 * prev.fee_per_gas + 7) / 8 ≤ f.max_fee_per_gas
    → f.max_fee_per_gas ≡ prev.max_fee_per_gas
    → f.max_fee_per_gas < safe_fee
    → replaces (max_with f (bump prev)) prev ≡ true
unfolding max_with bump
replaces-max_with-bump f prev capped room same small =
    let fee_exact = bump_value_exact prev.fee_per_gas (omega arith) in
    let priority_exact = bump_value_exact prev.priority_fee_per_gas (omega arith) in
    let fee_min = replacement_min-le-bump_value prev.fee_per_gas (omega arith) in
    let priority_min = replacement_min-le-bump_value prev.priority_fee_per_gas (omega arith) in
    replaces_intro (max_with f (bump prev)) prev (omega arith) (omega arith)

-- Capped fees survive being written to transaction parameters and read back under the same ceiling.
pub read_fees-with_fees :
    (p : TxParams) (f : Fees) → IsCapped f → read_fees f.max_fee_per_gas (with_fees p f) ≡ some f
unfolding read_fees with_fees
read_fees-with_fees p f c = ground arith
