-- ===== src/Utils/Format.antt =====
-- `fmt.Sprintf` and `strconv.Itoa` at the formats that the server uses: %d, %03d, %04d.
use netwingfs.Prelude.{
  ℕ, zero, suc, ◌+◌, ◌-◌, ◌/◌, ◌%◌, [], ◌∷◌, ◌++◌, length, replicate, ltb, if◌then◌else◌,
}
use netwingfs.Prelude.Bytes.{Bytes}
use netwingfs.Prelude.Int.{ℤ, pos, negsuc}

-- Decimal digits on fuel, one unit for each digit.
unfoldable pub show_fuel : ℕ → ℕ → Bytes
show_fuel zero n = []
show_fuel (suc fuel) n =
    let front = show_fuel fuel (n / 10) in
    if ltb n 10 then (b'0' + n) ∷ [] else front ++ (b'0' + n % 10) ∷ []

-- A 64-bit number has at most 20 digits.
unfoldable pub show_nat : ℕ → Bytes
unfolding show_fuel
show_nat n = show_fuel 20 n

-- %d
unfoldable pub show_int : ℤ → Bytes
unfolding show_nat
show_int (pos n) = show_nat n
show_int (negsuc n) = b'-' ∷ show_nat (suc n)

-- Zeros in front, up to the width.
unfoldable pub pad : ℕ → Bytes → Bytes
pad width s = replicate (width - length s) b'0' ++ s

-- %03d and %04d: the sign counts towards the width.
unfoldable pub show_padded : ℕ → ℤ → Bytes
unfolding show_nat pad
show_padded width (pos n) = pad width (show_nat n)
show_padded width (negsuc n) = b'-' ∷ pad (width - 1) (show_nat (suc n))
