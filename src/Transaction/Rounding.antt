-- ===== src/Transaction/Rounding.antt =====
-- Python's `ceil(value * factor)` for an integer and a double (src/common/transaction.py, `_bump` and
-- `replaces`): the integer is converted to a double, the product is rounded to 53 bits, half to even,
-- and the rounding up to an integer is exact. Numbers from 2 ^ 1024 on raise `OverflowError` in
-- Python and are outside of the model.
pub mod Laws
use v3_keeper.Base.{
  ℕ, zero, suc, ◌+◌, ◌-◌, ◌*◌, ◌/◌, ◌%◌, ◌^◌, Bool, ltb, ◌==◌, if◌then◌else◌, ◌&&◌, ◌||◌,
}

abbrev pub mantissa : ℕ
mantissa = 2 ^ 53

-- How many times `p` is halved until it fits into 53 bits; the fuel bounds the count.
pub excess : ℕ → ℕ → ℕ
excess zero p = 0
excess (suc fuel) p = let rest = suc (excess fuel (p / 2)) in if ltb p mantissa then 0 else rest

-- Whether `p` lies above the middle of two multiples of `unit`, or in it and above an odd one.
pub rounds_up : ℕ → ℕ → Bool
rounds_up p unit = ltb unit (2 * (p % unit)) || (2 * (p % unit) == unit && p / unit % 2 == 1)

-- The multiple of `unit` next to `p`, the even one in the middle.
pub nearest_even : ℕ → ℕ → ℕ
unfolding rounds_up
nearest_even p unit = (if rounds_up p unit then p / unit + 1 else p / unit) * unit

-- 1100 halvings are more than any double can need.
unfoldable pub round_double : ℕ → ℕ
unfolding excess nearest_even
round_double p = nearest_even p (2 ^ excess 1100 p)

abbrev pub one : ℕ
one = 2 ^ 52

-- `ceil(value * factor)`, where the double `factor` is `m / 2 ^ 52`.
unfoldable pub ceil_mul : ℕ → ℕ → ℕ
unfolding round_double
ceil_mul value m = (round_double (round_double value * m) + (one - 1)) / one
