-- ===== src/Kv/Lex.antt =====
-- The lexicographic order of keys.
use opens.Prelude.{◌≡◌, refl, true, false, [], ◌∷◌, Bytes, has_prefix, arith}
use opens.Kv.{lt_bytes}

pub lt_bytes_irrefl : (a : Bytes) → lt_bytes a a ≡ false
unfolding lt_bytes
lt_bytes_irrefl [] = refl
lt_bytes_irrefl (x ∷ a) = ground (arith, lt_bytes_irrefl a)

pub lt_bytes_asymm : (a b : Bytes) → lt_bytes a b ≡ true → lt_bytes b a ≡ false
unfolding lt_bytes
lt_bytes_asymm [] b h = refl
lt_bytes_asymm (x ∷ a) [] h = ground arith
lt_bytes_asymm (x ∷ a) (y ∷ b) h = ground (arith, lt_bytes_asymm a b)

pub lt_bytes_trans :
    (a b c : Bytes) → lt_bytes a b ≡ true → lt_bytes c b ≡ false → lt_bytes a c ≡ true
unfolding lt_bytes
lt_bytes_trans a [] c h k = ground arith
lt_bytes_trans [] (y ∷ b) [] h k = ground arith
lt_bytes_trans [] (y ∷ b) (z ∷ c) h k = refl
lt_bytes_trans (x ∷ a) (y ∷ b) [] h k = ground arith
lt_bytes_trans (x ∷ a) (y ∷ b) (z ∷ c) h k = ground (arith, lt_bytes_trans a b c)

-- A key with a prefix is not before it.
pub has_prefix-lt_bytes : (y p : Bytes) → has_prefix y p ≡ true → lt_bytes y p ≡ false
unfolding lt_bytes has_prefix
has_prefix-lt_bytes y [] h = refl
has_prefix-lt_bytes [] (x ∷ p) h = ground arith
has_prefix-lt_bytes (c ∷ y) (x ∷ p) h = ground (arith, has_prefix-lt_bytes y p)

-- What lies between a prefix and a key that has it, has it too.
pub has_prefix_between :
    (x y p : Bytes)
    → has_prefix y p ≡ true
    → lt_bytes x p ≡ false
    → lt_bytes y x ≡ false
    → has_prefix x p ≡ true
unfolding lt_bytes has_prefix
has_prefix_between x y [] h k l = refl
has_prefix_between x [] (c ∷ p) h k l = ground arith
has_prefix_between [] (d ∷ y) (c ∷ p) h k l = ground arith
has_prefix_between (e ∷ x) (d ∷ y) (c ∷ p) h k l = ground (arith, has_prefix_between x y p)

-- The order is total.
pub lt_bytes_connex : (a b : Bytes) → lt_bytes a b ≡ false → lt_bytes b a ≡ false → a ≡ b
unfolding lt_bytes
lt_bytes_connex [] [] h k = refl
lt_bytes_connex [] (y ∷ b) h k = ground arith
lt_bytes_connex (x ∷ a) [] h k = ground arith
lt_bytes_connex (x ∷ a) (y ∷ b) h k = ground (arith, lt_bytes_connex a b)
