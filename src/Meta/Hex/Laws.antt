-- ===== src/Meta/Hex/Laws.antt =====
-- Hexadecimal digits: what is printed is read back, in the given width, and ordered like the numbers.
use opens.Prelude.{
  ℕ, zero, suc, ◌+◌, ◌*◌, ◌/◌, ◌%◌, ◌<◌, ◌≡◌, ◌≢◌, refl, sym, ap, ◌∙◌, inl, inr, false, some, [],
  ◌∷◌, ◌++◌, Bytes, All, eq_bytes, eq_bytes_refl, eq_bytes_sound, length, length-append, ltb, ◌==◌,
  arith, Bool-cases,
}
use mathlib.Core.Option.{some-injective}
use mathlib.Core.List.{append_assoc}
use opens.Kv.{lt_bytes}
use opens.Kv.Bounds.{lt_bytes-last}
use opens.Meta.Hex.{hex_digit, hex, hex_value, parse_digits}

-- How many numbers have w digits.
unfoldable pub room : ℕ → ℕ
room zero = 1
room (suc w) = room w * 16

hex_value-digit : (d : ℕ) → d < 16 → hex_value (hex_digit d) ≡ some d
unfolding hex_value hex_digit
hex_value-digit d h = ground arith

parse_digits-step :
    (acc d n : ℕ) (s : Bytes)
    → d < 16
    → acc * 16 + d ≡ n
    → parse_digits acc (hex_digit d ∷ s) ≡ parse_digits n s
unfolding parse_digits
parse_digits-step acc d n s h e = ground (arith, hex_value-digit d h, ap (λ m. parse_digits m s) e)

pub parse_digits-hex :
    (w n : ℕ) (s : Bytes) → n < room w → parse_digits 0 (hex w n ++ s) ≡ parse_digits n s
unfolding hex room
parse_digits-hex zero n s h = ap (λ m. parse_digits m s) (omega arith)
parse_digits-hex (suc w) n s h =
    rw (append_assoc, parse_digits-hex w (n / 16) (hex_digit (n % 16) ∷ s) (omega arith))
      (parse_digits-step (n / 16) (n % 16) n s (omega arith) (omega arith))

pub length-hex : (w n : ℕ) → length (hex w n) ≡ w
unfolding hex
length-hex zero n = refl
length-hex (suc w) n =
    ground (arith, length-append (hex w (n / 16)) (hex_digit (n % 16) ∷ []), length-hex w (n / 16))

hex_digit-lt : (d e : ℕ) → d < 16 → e < 16 → ltb (hex_digit d) (hex_digit e) ≡ ltb d e
unfolding hex_digit
hex_digit-lt d e h k = ground arith

pub hex-injective : (w n m : ℕ) → n < room w → m < room w → hex w n ≡ hex w m → n ≡ m
unfolding parse_digits
hex-injective w n m h k e =
    some-injective _ _ (sym (read w n h) ∙ ap (λ s. parse_digits 0 (s ++ [])) e ∙ read w m k)
  where
    read : (w n : ℕ) → n < room w → parse_digits 0 (hex w n ++ []) ≡ some n
    read w n h = parse_digits-hex w n [] h

eq-hex : (w n m : ℕ) → n < room w → m < room w → eq_bytes (hex w n) (hex w m) ≡ (n == m)
eq-hex w n m h k = elim (Bool-cases (eq_bytes (hex w n) (hex w m))) [
  | inl e ↦ rw e (ground (arith, hex-injective w n m h k (eq_bytes_sound (hex w n) (hex w m) e)))
  | inr e ↦ rw e (ground (arith, differ e))
]
  where
    differ : eq_bytes (hex w n) (hex w m) ≡ false → n ≢ m
    differ e same =
        ground (arith, eq_bytes_refl (hex w n), ap (λ x. eq_bytes (hex w n) (hex w x)) same)

nothing_below : lt_bytes [] [] ≡ false
unfolding lt_bytes
nothing_below = refl

pub lt_bytes-hex : (w n m : ℕ) → n < room w → m < room w → lt_bytes (hex w n) (hex w m) ≡ ltb n m
unfolding hex room
lt_bytes-hex zero n m h k = ground (arith, nothing_below)
lt_bytes-hex (suc w) n m h k =
    rw
      (
        lt_bytes-last (hex w (n / 16)) (hex w (m / 16)) (hex_digit (n % 16)) (hex_digit (m % 16))
            (length-hex w (n / 16) ∙ sym (length-hex w (m / 16))),
        lt_bytes-hex w (n / 16) (m / 16) (omega arith) (omega arith),
        eq-hex w (n / 16) (m / 16) (omega arith) (omega arith),
        hex_digit-lt (n % 16) (m % 16) (omega arith) (omega arith),
      )
      (ground arith)

All-append : (P : ℕ → Type 0) (a b : Bytes) → All P a → All P b → All P (a ++ b)
All-append P [] b h k = k
All-append P (x ∷ a) b h k = (h.0, All-append P a b h.1 k)

pub hex_printable : (w n : ℕ) → All (λ c. c ≢ 0) (hex w n)
unfolding hex hex_digit
hex_printable zero n = tt
hex_printable (suc w) n =
    All-append (λ c. c ≢ 0) (hex w (n / 16)) _ (hex_printable w (n / 16)) (ground arith, tt)
