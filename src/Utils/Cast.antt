-- ===== src/Utils/Cast.antt =====
-- internal/utils/cast_utils.go: numbers read from a packet's fields.
use netwingfs.Prelude.{
  ℕ, zero, suc, ◌+◌, ◌-◌, ◌*◌, ◌^◌, Bool, ◌&&◌, Option, none, some, [], ◌∷◌, ltb, leb, ◌==◌,
  if◌then◌else◌,
}
use netwingfs.Prelude.Bytes.{Bytes}
use netwingfs.Prelude.Int.{ℤ, pos, negsuc}

abbrev pub is_digit : ℕ → Bool
is_digit c = leb b'0' c && leb c b'9'

-- The value of a text of decimal digits, from the value of the digits before it.
unfoldable pub digits_from : ℕ → Bytes → Option ℕ
digits_from acc [] = some acc
digits_from acc (c ∷ s) =
    let rest = digits_from (acc * 10 + (c - b'0')) s in if is_digit c then rest else none

-- At least one digit.
unfoldable pub digits : Bytes → Option ℕ
unfolding digits_from
digits [] = none
digits (c ∷ s) = digits_from 0 (c ∷ s)

-- A magnitude with its sign, where it fits a 64-bit `int`.
unfoldable pub in_range : Bool → Option ℕ → Option ℤ
in_range neg none = none
in_range Bool.false (some n) = if ltb n (2 ^ 63) then some (pos n) else none
in_range Bool.true (some zero) = some (pos 0)
in_range Bool.true (some (suc n)) = if ltb n (2 ^ 63) then some (negsuc n) else none

-- `strconv.Atoi`: an optional sign, then decimal digits, within the range of a 64-bit `int`.
unfoldable pub atoi : Bytes → Option ℤ
unfolding digits in_range
atoi [] = none
atoi (c ∷ s) =
    if c == b'-'
    then in_range Bool.true (digits s)
    else if c == b'+'
    then in_range Bool.false (digits s)
    else in_range Bool.false (digits (c ∷ s))

-- `StrToInt`.
unfoldable pub str_to_int : Bytes → ℤ → ℤ
unfolding atoi
str_to_int str default_value = elim (atoi str) [ none ↦ default_value | some n ↦ n ]
