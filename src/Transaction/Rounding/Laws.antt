-- ===== src/Transaction/Rounding/Laws.antt =====
-- Rounding to a double keeps what fits into 53 bits and the order between such a number and any
-- other; so the bounds on `ceil(value * factor)` are those of exact arithmetic.
use native.Mathlib.Nat.{
  pow-suc, pow-le-pow_right, one-le-pow, div-add-mod, mul-le-mul_right, le-div_iff_mul-le, add-zero,
  add-suc, le_trans, mul-lt-mul_of_pos_right,
}
use native.Mathlib.Decide.{dec_lt, dec_le}
use v3_keeper.Base.{
  ℕ, zero, suc, ◌+◌, ◌-◌, ◌*◌, ◌/◌, ◌%◌, ◌^◌, ◌≤◌, ◌<◌, ◌≡◌, ap, inl, inr, false, arith, Bool-cases,
}
use v3_keeper.Transaction.Rounding.{
  mantissa, excess, rounds_up, nearest_even, round_double, one, ceil_mul,
}

-- A multiple of the unit stays on its side of the rounded number.
nearest_even-lower : (n p u : ℕ) → 0 < u → n * u ≤ p → n * u ≤ nearest_even p u
unfolding nearest_even
nearest_even-lower n p u pos h =
    let le : n * u ≤ p / u * u = mul-le-mul_right u ((le-div_iff_mul-le pos).1 h) in
    elim (Bool-cases (rounds_up p u)) [ inl e ↦ rw e (omega (arith, le)) | inr e ↦ rw e le ]

rounds_up_exact : (p u : ℕ) → 0 < u → p % u ≡ 0 → rounds_up p u ≡ false
unfolding rounds_up
rounds_up_exact p u pos h = rw h (ground arith)

nearest_even-upper : (n p u : ℕ) → 0 < u → p ≤ n * u → nearest_even p u ≤ n * u
unfolding nearest_even
nearest_even-upper n p u pos h = elim (dec_lt (p / u) n) [
  | yes lt ↦
      let le : (p / u + 1) * u ≤ n * u = mul-le-mul_right u (omega arith) in
      elim (Bool-cases (rounds_up p u)) [ inl e ↦ rw e le | inr e ↦ rw e (omega (arith, le)) ]
  | no ge ↦
      let le : n * u ≤ p / u * u = mul-le-mul_right u (omega arith) in
      rw (rounds_up_exact p u pos (omega (arith, div-add-mod p u, le)))
        (omega (arith, div-add-mod p u))
]

pow-split : (k d : ℕ) → 2 ^ (k + d) ≡ 2 ^ k * 2 ^ d
pow-split k zero = rw add-zero (omega arith)
pow-split k (suc d) = rw (add-suc, pow-suc 2 (k + d), pow-suc 2 d) (omega (arith, pow-split k d))

-- A number that is halved has more than 53 bits before the last halving.
excess_minimal : (fuel p k : ℕ) → excess fuel p ≡ suc k → 2 ^ k * mantissa ≤ p
unfolding excess
excess_minimal zero p k h = absurd (omega arith)
excess_minimal (suc fuel) p zero h = ground arith
excess_minimal (suc fuel) p (suc k) h =
    rw (pow-suc 2 k) (ground (arith, excess_minimal fuel (p / 2) k))

pow-pos : (k : ℕ) → 0 < 2 ^ k
pow-pos k = one-le-pow k 2 (omega arith)

-- `a * 2 ^ j` is in units of `2 ^ k`, or below the first number that is halved `k` times.
regroup : (a j k : ℕ) → k ≤ j → a * 2 ^ j ≡ a * 2 ^ (j - k) * 2 ^ k
regroup a j k h =
    let e : k + (j - k) ≡ j = omega arith in
    let split = pow-split k (j - k) in
    let split' : 2 ^ j ≡ 2 ^ k * 2 ^ (j - k) = rw e at split in
    omega (arith, ap (λ (t : ℕ). a * t) split')

below_halved :
    (a j k fuel p : ℕ)
    → a < mantissa
    → j ≤ k
    → excess fuel p ≡ suc k
    → (a * 2 ^ j < 2 ^ k * mantissa) × (2 ^ k * mantissa ≤ p)
below_halved a j k fuel p small h e = (
  le_trans (mul-lt-mul_of_pos_right small (pow-pos j))
      (omega (arith, mul-le-mul_right mantissa (pow-le-pow_right {n = 2} (omega arith) h))),
  excess_minimal fuel p k e,
)

-- Rounding keeps the order to a number of 53 bits times a power of two.
pub round_double-lower : (a j p : ℕ) → a < mantissa → a * 2 ^ j ≤ p → a * 2 ^ j ≤ round_double p
unfolding round_double
round_double-lower a j p small h = elim (dec_le (excess 1100 p) j) [
  | yes le ↦
      let e = regroup a j (excess 1100 p) le in
      rw e (nearest_even-lower _ p _ (pow-pos (excess 1100 p)) (rw (← e) h))
  | no gt ↦
      let k = excess 1100 p - 1 in
      let e : excess 1100 p ≡ suc k = omega arith in
      let (below, above) = below_halved a j k 1100 p small (omega arith) e in
      rw e (
        le_trans (omega (arith, below))
          (nearest_even-lower one p _ (pow-pos (suc k)) (rw (pow-suc 2 k) (omega (arith, above)))))
]

pub round_double-upper : (a j p : ℕ) → a < mantissa → p ≤ a * 2 ^ j → round_double p ≤ a * 2 ^ j
unfolding round_double
round_double-upper a j p small h = elim (dec_le (excess 1100 p) j) [
  | yes le ↦
      let e = regroup a j (excess 1100 p) le in
      rw e (nearest_even-upper _ p _ (pow-pos (excess 1100 p)) (rw (← e) h))
  | no gt ↦
      absurd (
        omega
          (arith, below_halved a j (excess 1100 p - 1) 1100 p small (omega arith) (omega arith)))
]

-- A number of 53 bits times a power of two is a double itself.
pub round_double_exact : (a j p : ℕ) → a < mantissa → p ≡ a * 2 ^ j → round_double p ≡ p
round_double_exact a j p small e = omega (
  arith,
  round_double-lower a j p small (omega arith),
  round_double-upper a j p small (omega arith),
)

-- The double product is at least, or at most, each such number that the exact product is.
pub ceil_mul-lower :
    (a j v m : ℕ)
    → v < mantissa
    → a < mantissa
    → a * 2 ^ j ≤ v * m
    → (a * 2 ^ j + (one - 1)) / one ≤ ceil_mul v m
unfolding ceil_mul
ceil_mul-lower a j v m small fits h =
    rw (round_double_exact v 0 v small (omega arith))
      (omega (arith, round_double-lower a j (v * m) fits h))

pub ceil_mul-upper :
    (a j v m : ℕ)
    → v < mantissa
    → a < mantissa
    → v * m ≤ a * 2 ^ j
    → ceil_mul v m ≤ (a * 2 ^ j + (one - 1)) / one
unfolding ceil_mul
ceil_mul-upper a j v m small fits h =
    rw (round_double_exact v 0 v small (omega arith))
      (omega (arith, round_double-upper a j (v * m) fits h))
