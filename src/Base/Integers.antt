-- ===== src/Base/Integers.antt =====
-- Python's integers below zero, and `int` of a decimal text.
use Prim.Native.Nat.{ℕ, zero, suc, ◌+◌, ◌-◌, ◌*◌}
use mathlib.Core.Bool.{Bool, true, false, ◌&&◌, ◌||◌}
use mathlib.Core.List.{List, [], ◌∷◌, reverse}
use mathlib.Core.Option.{Option, none, some}
use v3_keeper.Base.Tests.{if◌then◌else◌, ◌==◌, leb}

-- `negsuc n` is -(n + 1).
pub data ℤ : Type 0 where
  pos : ℕ → ℤ
  negsuc : ℕ → ℤ

abbrev pub neg : ℕ → ℤ
neg zero = pos zero
neg (suc n) = negsuc n

abbrev pub is_digit : ℕ → Bool
is_digit c = leb b'0' c && leb c b'9'

-- The ASCII characters that `str.strip` drops.
abbrev pub is_space : ℕ → Bool
is_space c = c == 32 || (leb 9 c && leb c 13) || (leb 28 c && leb c 31)

pub skip_spaces : List ℕ → List ℕ
skip_spaces [] = []
skip_spaces (c ∷ cs) = if is_space c then skip_spaces cs else c ∷ cs

-- Digits, with single underscores between them; `after_digit` tells whether a digit stands before.
pub read_digits : Bool → ℕ → List ℕ → Option ℕ
read_digits after_digit acc [] = if after_digit then some acc else none
read_digits after_digit acc (c ∷ cs) =
    let rest = read_digits true (acc * 10 + (c - b'0')) cs in
    let gap = read_digits false acc cs in
    if is_digit c then rest else if after_digit && c == b'_' then gap else none

abbrev pub signed : (ℕ → ℤ) → Option ℕ → Option ℤ
signed sign none = none
signed sign (some n) = some (sign n)

pub read_signed : List ℕ → Option ℤ
unfolding read_digits
read_signed [] = none
read_signed (c ∷ cs) =
    if c == b'-'
    then signed neg (read_digits false 0 cs)
    else if c == b'+'
    then signed pos (read_digits false 0 cs)
    else signed pos (read_digits false 0 (c ∷ cs))

-- `int(text)` over ASCII, `none` where it raises `ValueError`.
unfoldable pub int_of : List ℕ → Option ℤ
unfolding read_signed skip_spaces
int_of text = read_signed (reverse (skip_spaces (reverse (skip_spaces text))))
