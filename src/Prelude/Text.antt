-- ===== src/Prelude/Text.antt =====
-- Go strings, as lists of bytes: what the program uses of the `strings` package.
use Prim.Native.Nat.{ℕ, suc, ◌-◌}
use Prim.Native.Char.{code}
use Prim.Native.String.{String}
use mathlib.Core.Path.{◌≡◌, refl}
use mathlib.Core.Logic.{◌↔◌}
use mathlib.Core.Bool.{Bool, true, false, ◌&&◌}
use mathlib.Core.Option
use mathlib.Core.Option.{Option, none, some}
use mathlib.Core.List.{List, [], ◌∷◌, ◌++◌}
use native.Mathlib.Omega.{arith}
use opens.Prelude.Tests.{leb, ◌==◌, if◌then◌else◌}
use opens.Prelude.Lists.{length, take, drop}

abbrev pub Bytes : Type 0
Bytes = List ℕ

-- The bytes of a literal, which are all ASCII here.
abbrev pub codes : String → Bytes
codes String.[] = []
codes (String.◌∷◌ c s) = code c ∷ codes s

-- s == t
unfoldable pub eq_bytes : Bytes → Bytes → Bool
eq_bytes [] [] = true
eq_bytes [] (y ∷ t) = false
eq_bytes (x ∷ s) [] = false
eq_bytes (x ∷ s) (y ∷ t) = x == y && eq_bytes s t

pub eq_bytes_sound : (s t : Bytes) → eq_bytes s t ≡ true → s ≡ t
unfolding eq_bytes
eq_bytes_sound [] [] h = refl
eq_bytes_sound [] (y ∷ t) h = ground arith
eq_bytes_sound (x ∷ s) [] h = ground arith
eq_bytes_sound (x ∷ s) (y ∷ t) h = ground (arith, eq_bytes_sound s t)

pub eq_bytes_refl : (s : Bytes) → eq_bytes s s ≡ true
unfolding eq_bytes
eq_bytes_refl [] = refl
eq_bytes_refl (x ∷ s) = ground (arith, eq_bytes_refl s)

pub eq_bytes_iff : (s t : Bytes) → (eq_bytes s t ≡ true) ↔ (s ≡ t)
eq_bytes_iff s t = (eq_bytes_sound s t, λ e. subst_eq e)
  where
    subst_eq : s ≡ t → eq_bytes s t ≡ true
    subst_eq e = rw (← e) (eq_bytes_refl s)

-- strings.HasPrefix(s, p)
unfoldable pub has_prefix : Bytes → Bytes → Bool
has_prefix s [] = true
has_prefix [] (x ∷ p) = false
has_prefix (c ∷ s) (x ∷ p) = c == x && has_prefix s p

-- A text begins with a prefix exactly when it is the prefix and some rest.
pub has_prefix_sound : (s p : Bytes) → has_prefix s p ≡ true → s ≡ p ++ drop (length p) s
unfolding has_prefix
has_prefix_sound s [] h = refl
has_prefix_sound [] (x ∷ p) h = ground arith
has_prefix_sound (c ∷ s) (x ∷ p) h = ground (arith, has_prefix_sound s p)

pub has_prefix-append : (p s : Bytes) → has_prefix (p ++ s) p ≡ true
unfolding has_prefix
has_prefix-append [] s = refl
has_prefix-append (x ∷ p) s = ground (arith, has_prefix-append p s)

-- strings.IndexByte(s, c), with `none` for -1
unfoldable pub index_byte : Bytes → ℕ → Option ℕ
index_byte [] c = none
index_byte (x ∷ s) c = if x == c then some 0 else Option.map suc (index_byte s c)

-- s[:i], s[i:] at a position that is in range are `take i s` and `drop i s`.

-- strings.HasSuffix(s, t) and strings.TrimSuffix(s, t) where it has it
unfoldable pub has_suffix : Bytes → Bytes → Bool
has_suffix s t = leb (length t) (length s) && eq_bytes (drop (length s - length t) s) t

unfoldable pub trim_suffix : Bytes → Bytes → Bytes
unfolding has_suffix
trim_suffix s t = if has_suffix s t then take (length s - length t) s else s
