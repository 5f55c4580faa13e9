-- ===== src/Policy/Glob/Spec.antt =====
-- What a wildcard pattern means, with no search order in it: `*` stands for any run of bytes, `?`
-- for one byte, and any other byte for itself.
use opens.Prelude.{
  ℕ, ◌≡◌, ◌≢◌, Bool, true, false, ◌&&◌, ◌||◌, [], ◌∷◌, Bytes, All, is_nil, ◌==◌, arith,
  if◌then◌else◌,
}

unfoldable pub some_suffix : (Bytes → Bool) → Bytes → Bool
some_suffix f [] = f []
some_suffix f (c ∷ s) = f (c ∷ s) || some_suffix f s

pub one_byte : ℕ → (Bytes → Bool) → Bytes → Bool
one_byte x f [] = false
one_byte x f (c ∷ s) = (x == b'?' || x == c) && f s

unfoldable pub denotes : Bytes → Bytes → Bool
unfolding some_suffix one_byte
denotes [] s = is_nil s
denotes (x ∷ p) s = if x == b'*' then some_suffix (denotes p) s else one_byte x (denotes p) s

abbrev pub HasNoStar : Bytes → Type 0
HasNoStar = All (λ c. c ≢ b'*')

module _ (f : Bytes → Bool) where
  pub some_suffix-here : (s : Bytes) → f s ≡ true → some_suffix f s ≡ true
  unfolding some_suffix
  some_suffix-here [] h = h
  some_suffix-here (c ∷ s) h = ground arith

  -- Two stars in a row are one.
  pub some_suffix_idem : (s : Bytes) → some_suffix (some_suffix f) s ≡ true → some_suffix f s ≡ true
  unfolding some_suffix
  some_suffix_idem [] h = h
  some_suffix_idem (c ∷ s) h = ground (arith, some_suffix_idem s)

  -- Where a byte and then `f` fit some suffix, `f` fits a suffix of what follows the first byte.
  pub some_suffix-one_byte :
      (x c : ℕ) (s : Bytes) → some_suffix (one_byte x f) (c ∷ s) ≡ true → some_suffix f s ≡ true
  unfolding some_suffix one_byte
  some_suffix-one_byte x c [] h = ground arith
  some_suffix-one_byte x c (d ∷ s) h = ground (arith, some_suffix-one_byte x d s)
