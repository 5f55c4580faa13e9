-- ===== src/Prelude/Checks.antt =====
-- Validation in the Go way: a chain of checks that returns at the first error, `none` for nil.
use mathlib.Core.Path.{◌≡◌, refl}
use mathlib.Core.Logic.{inl, inr}
use mathlib.Core.Bool.{Bool, true, false}
use mathlib.Core.Option.{Option, none, some}
use mathlib.Core.List.{List, [], ◌∷◌}
use native.Mathlib.Omega.{arith}
use opens.Prelude.Lists.{In}

module _ {E : Type 0} where
  -- if b { return e }
  abbrev pub fail_if : Bool → E → Option E
  fail_if true e = some e
  fail_if false e = none

  -- if err := c; err != nil { return err }, and then the rest
  infixr 20 ◌⊳◌
  abbrev pub ◌⊳◌ : Option E → Option E → Option E
  some e ⊳ next = some e
  none ⊳ next = next

-- A loop that returns the first error.
unfoldable pub first_error : {E A : Type 0} → (A → Option E) → List A → Option E
first_error check [] = none
first_error check (x ∷ xs) = check x ⊳ first_error check xs

module _ {E : Type 0} where
  pub ⊳-none : (a b : Option E) → (a ⊳ b) ≡ none → (a ≡ none) × (b ≡ none)
  ⊳-none none b h = (refl, h)
  ⊳-none (some e) b h = ground arith

  pub fail_if-none : (b : Bool) (e : E) → fail_if b e ≡ none → b ≡ false
  fail_if-none true e h = ground arith
  fail_if-none false e h = refl

  pub first_check-none :
      (b : Bool) (e : E) (next : Option E)
      → (fail_if b e ⊳ next) ≡ none
      → (b ≡ false) × (next ≡ none)
  first_check-none true e next h = ground arith
  first_check-none false e next h = (refl, h)

  -- A loop without an error has checked every item.
  pub first_error-In :
      {A : Type 0} (check : A → Option E) (xs : List A) (x : A)
      → first_error check xs ≡ none
      → In x xs
      → check x ≡ none
  unfolding first_error
  first_error-In check [] x h m = absurd m
  first_error-In check (y ∷ ys) x h (inl e) =
      ground (arith, ⊳-none (check y) (first_error check ys))
  first_error-In check (y ∷ ys) x h (inr m) =
      first_error-In check ys x (⊳-none (check y) (first_error check ys) h).1 m
