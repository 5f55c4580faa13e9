-- ===== src/Prelude/Order.antt =====
-- Loops over Go maps and over lists whose order does not matter: the tests `any` and `all` give the
-- same answer on every rearrangement.
use mathlib.Core.Bool.{Bool, ◌||◌, Bool-set}
use mathlib.Core.Path.{◌≡◌, refl, ◌∙◌}
use mathlib.Core.Logic.{∥∥₁_elim}
use mathlib.Core.List.{List, [], ◌∷◌, ◌++◌, Perm, Permᴰ}
use native.Mathlib.Omega.{arith}
use opens.Prelude.Lists.{any, all}

module _ {A : Type 0} (f : A → Bool) where
  any-Permᴰ : {xs ys : List A} → Permᴰ xs ys → any f xs ≡ any f ys
  unfolding any
  any-Permᴰ Permᴰ.nil = refl
  any-Permᴰ (Permᴰ.cons e p) = ground (arith, any-Permᴰ p)
  any-Permᴰ (Permᴰ.swap e d) = ground arith
  any-Permᴰ (Permᴰ.trans p q) = any-Permᴰ p ∙ any-Permᴰ q

  all-Permᴰ : {xs ys : List A} → Permᴰ xs ys → all f xs ≡ all f ys
  unfolding all
  all-Permᴰ Permᴰ.nil = refl
  all-Permᴰ (Permᴰ.cons e p) = ground (arith, all-Permᴰ p)
  all-Permᴰ (Permᴰ.swap e d) = ground arith
  all-Permᴰ (Permᴰ.trans p q) = all-Permᴰ p ∙ all-Permᴰ q

  pub any-Perm : {xs ys : List A} → Perm xs ys → any f xs ≡ any f ys
  any-Perm {xs} {ys} p = ∥∥₁_elim p (Bool-set (any f xs) (any f ys)) any-Permᴰ

  pub all-Perm : {xs ys : List A} → Perm xs ys → all f xs ≡ all f ys
  all-Perm {xs} {ys} p = ∥∥₁_elim p (Bool-set (all f xs) (all f ys)) all-Permᴰ

  pub any-append : (xs ys : List A) → any f (xs ++ ys) ≡ (any f xs || any f ys)
  unfolding any
  any-append [] ys = refl
  any-append (x ∷ xs) ys = ground (arith, any-append xs ys)
