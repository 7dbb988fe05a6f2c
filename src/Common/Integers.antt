-- ===== src/Common/Integers.antt =====
-- Go's int64, and strconv.ParseInt(s, 10, 64), which strconv.Atoi is on 64-bit machines.
use Prim.Native.Nat.{ℕ, zero, suc, ◌+◌, ◌-◌, ◌*◌, ◌^◌}
use mathlib.Core.Bool.{Bool, ◌&&◌}
use mathlib.Core.List.{[], ◌∷◌}
use mathlib.Core.Option.{Option, none, some}
use proxywi.Common.Tests.{leb, ltb, ◌==◌, if◌then◌else◌}
use proxywi.Common.Text.{Bytes, is_empty}

-- `negsuc n` is -(n + 1).
pub data ℤ : Type 0 where
  pos : ℕ → ℤ
  negsuc : ℕ → ℤ

abbrev pub neg : ℕ → ℤ
neg zero = pos 0
neg (suc n) = negsuc n

abbrev pub is_digit : ℕ → Bool
is_digit c = leb b'0' c && leb c b'9'

-- The number whose digits stand after those of `n`.
unfoldable pub digits_value : ℕ → Bytes → Option ℕ
digits_value n [] = some n
digits_value n (c ∷ s) =
    let rest = digits_value (n * 10 + (c - b'0')) s in if is_digit c then rest else none

abbrev in_range : (ℕ → ℤ) → ℕ → Option ℕ → Option ℤ
in_range sign bound none = none
in_range sign bound (some n) = if ltb n bound then some (sign n) else none

abbrev parse_digits : (ℕ → ℤ) → ℕ → Bytes → Option ℤ
parse_digits sign bound s = if is_empty s then none else in_range sign bound (digits_value 0 s)

-- `none` for an error, of syntax or of range.
unfoldable pub parse_int : Bytes → Option ℤ
unfolding digits_value
parse_int [] = none
parse_int (c ∷ s) =
    if c == b'-'
    then parse_digits neg (2 ^ 63 + 1) s
    else if c == b'+'
    then parse_digits pos (2 ^ 63) s
    else parse_digits pos (2 ^ 63) (c ∷ s)

abbrev clamped : (ℕ → ℤ) → ℕ → Option ℕ → ℤ
clamped sign bound none = pos 0
clamped sign bound (some n) = if ltb n bound then sign n else sign (bound - 1)

abbrev clamp_digits : (ℕ → ℤ) → ℕ → Bytes → ℤ
clamp_digits sign bound s = if is_empty s then pos 0 else clamped sign bound (digits_value 0 s)

-- The value that stands beside an error: 0 for one of syntax, the bound for one of range.
unfoldable pub parse_value : Bytes → ℤ
unfolding digits_value
parse_value [] = pos 0
parse_value (c ∷ s) =
    if c == b'-'
    then clamp_digits neg (2 ^ 63 + 1) s
    else if c == b'+'
    then clamp_digits pos (2 ^ 63) s
    else clamp_digits pos (2 ^ 63) (c ∷ s)

-- What is left of a number where only those above 0 count.
abbrev pub above_zero : ℤ → ℕ
above_zero (pos n) = n
above_zero (negsuc n) = 0
