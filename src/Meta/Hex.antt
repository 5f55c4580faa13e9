-- ===== src/Meta/Hex.antt =====
-- fmt.Sprintf("%016x", n) and strconv.ParseUint(s, 16, 64), on numbers of a fixed number of digits.
pub mod Laws
use opens.Prelude.{
  ℕ, zero, suc, ◌+◌, ◌-◌, ◌*◌, ◌/◌, ◌%◌, Bool, true, false, ◌&&◌, Option, none, some, [], ◌∷◌, ◌++◌,
  Bytes, ltb, leb, if◌then◌else◌,
}

unfoldable pub hex_digit : ℕ → ℕ
hex_digit d = if ltb d 10 then b'0' + d else b'a' + (d - 10)

-- %0wx
unfoldable pub hex : ℕ → ℕ → Bytes
hex zero n = []
hex (suc w) n = hex w (n / 16) ++ hex_digit (n % 16) ∷ []

unfoldable pub hex_value : ℕ → Option ℕ
hex_value c =
    if leb b'0' c && leb c b'9'
    then some (c - b'0')
    else if leb b'a' c && leb c b'f'
    then some (c - b'a' + 10)
    else if leb b'A' c && leb c b'F'
    then some (c - b'A' + 10)
    else none

-- The digits of ParseUint behind the value so far; the code calls it on 16 digits, which fit.
unfoldable pub parse_digits : ℕ → Bytes → Option ℕ
parse_digits acc [] = some acc
parse_digits acc (c ∷ s) = elim (hex_value c) [
  | none ↦ none
  | some d ↦ parse_digits (acc * 16 + d) s
]
