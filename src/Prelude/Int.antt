-- ===== src/Prelude/Int.antt =====
-- Go's `int` and `int64`, as far as the program compares them: an integer in two's complement
-- range is a value of ℤ. Where the code multiplies, the wrap-around is written out.
use Prim.Native.Nat.{ℕ}
use mathlib.Core.Path.{◌≡◌, refl}
use native.Mathlib.Omega.{arith}
use mathlib.Core.Bool.{Bool, true, false, not}
use opens.Prelude.Tests.{ltb}

-- `negsuc n` is -(n + 1).
pub data ℤ : Type 0 where
  pos : ℕ → ℤ
  negsuc : ℕ → ℤ

abbrev pub lt_int : ℤ → ℤ → Bool
lt_int (pos a) (pos b) = ltb a b
lt_int (pos a) (negsuc b) = false
lt_int (negsuc a) (pos b) = true
lt_int (negsuc a) (negsuc b) = ltb b a

-- a <= b
abbrev pub le_int : ℤ → ℤ → Bool
le_int a b = not (lt_int b a)

pub lt_int→le_int : (a b : ℤ) → lt_int a b ≡ true → le_int a b ≡ true
lt_int→le_int (pos a) (pos b) h = ground arith
lt_int→le_int (pos a) (negsuc b) h = ground arith
lt_int→le_int (negsuc a) (pos b) h = refl
lt_int→le_int (negsuc a) (negsuc b) h = ground arith

pub le_int_refl : (a : ℤ) → le_int a a ≡ true
le_int_refl (pos a) = ground arith
le_int_refl (negsuc a) = ground arith

pub le_int_trans : (a b c : ℤ) → le_int a b ≡ true → le_int b c ≡ true → le_int a c ≡ true
le_int_trans (pos a) (pos b) (pos c) h k = ground arith
le_int_trans _ _ _ h k = ground arith

pub not-le_int : (a b : ℤ) → le_int a b ≡ false → lt_int b a ≡ true
not-le_int a b h = ground arith
