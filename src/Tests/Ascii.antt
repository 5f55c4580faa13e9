-- ===== src/Tests/Ascii.antt =====
-- A value for what policy evaluation takes from Go's standard library: letter case over ASCII,
-- whole numbers for numbers and times, and texts for addresses.
use opens.Prelude.{
  ℕ, ◌+◌, ◌*◌, ◌-◌, true, ◌&&◌, Option, none, some, [], ◌∷◌, Bytes, eq_bytes, has_prefix, is_nil,
  ltb, leb, ◌==◌, if◌then◌else◌,
}
use opens.Policy.Std.{Std}

lower_byte : ℕ → ℕ
lower_byte c = if leb b'A' c && leb c b'Z' then c + 32 else c

unfoldable pub lower : Bytes → Bytes
unfolding lower_byte
lower [] = []
lower (c ∷ s) = lower_byte c ∷ lower s

digits_from : ℕ → Bytes → Option ℕ
digits_from acc [] = some acc
digits_from acc (c ∷ s) =
    let rest = digits_from (acc * 10 + (c - b'0')) s in
    if leb b'0' c && leb c b'9' then rest else none

pub parse_number : Bytes → Option ℕ
unfolding digits_from
parse_number [] = none
parse_number (c ∷ s) = digits_from 0 (c ∷ s)

abbrev pub ascii : Std
ascii = record {
  to_lower = lower;
  equal_fold = λ s t. eq_bytes (lower s) (lower t);
  Float = ℕ;
  parse_float = parse_number;
  float_eq = ◌==◌;
  float_lt = ltb;
  float_le = leb;
  Time = ℕ;
  parse_rfc3339 = λ s. none;
  parse_unix = parse_number;
  time_equal = ◌==◌;
  before = ltb;
  Ip = Bytes;
  Net = Bytes;
  parse_ip = λ s. if is_nil s then none else some s;
  is_v4 = λ ip. true;
  parse_cidr = some;
  contains = λ n ip. has_prefix n ip;
}
