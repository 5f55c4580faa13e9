-- ===== src/Prelude/Slices.antt =====
-- Slices of lists: `take` and `drop` behind and around `++`.
use Prim.Native.Nat.{ℕ, zero, suc, ◌+◌, ◌-◌, ◌≤◌}
use mathlib.Core.Path.{◌≡◌, refl, sym, ap, ◌∙◌}
use mathlib.Core.List.{List, [], ◌∷◌, ◌++◌}
use native.Mathlib.Omega.{arith}
use opens.Prelude.Lists.{length, take, drop}

module _ {A : Type 0} where
  drop-nil : (n : ℕ) → drop {A = A} n [] ≡ []
  drop-nil zero = refl
  drop-nil (suc n) = refl

  take-nil : (n : ℕ) → take {A = A} n [] ≡ []
  take-nil zero = refl
  take-nil (suc n) = refl

  pub length-drop : (n : ℕ) (xs : List A) → length (drop n xs) ≡ length xs - n
  length-drop zero xs = ground arith
  length-drop (suc n) [] = ground arith
  length-drop (suc n) (x ∷ xs) = ground (arith, length-drop n xs)

  pub length-take : (n : ℕ) (xs : List A) → n ≤ length xs → length (take n xs) ≡ n
  length-take zero xs h = refl
  length-take (suc n) [] h = ground arith
  length-take (suc n) (x ∷ xs) h = ground (arith, length-take n xs (ground arith))

  pub drop-append_left :
      (n : ℕ) (xs ys : List A) → n ≤ length xs → drop n (xs ++ ys) ≡ drop n xs ++ ys
  drop-append_left zero xs ys h = refl
  drop-append_left (suc n) [] ys h = ground arith
  drop-append_left (suc n) (x ∷ xs) ys h = drop-append_left n xs ys (ground arith)

  pub drop-append_right :
      (n : ℕ) (xs ys : List A) → length xs ≤ n → drop n (xs ++ ys) ≡ drop (n - length xs) ys
  drop-append_right n [] ys h = ground arith
  drop-append_right zero (x ∷ xs) ys h = ground arith
  drop-append_right (suc n) (x ∷ xs) ys h =
      let less : n - length xs ≡ suc n - suc (length xs) = omega arith in
      drop-append_right n xs ys (ground arith) ∙ ap (λ k. drop k ys) less

  pub take-append_left : (n : ℕ) (xs ys : List A) → n ≤ length xs → take n (xs ++ ys) ≡ take n xs
  take-append_left zero xs ys h = refl
  take-append_left (suc n) [] ys h = ground arith
  take-append_left (suc n) (x ∷ xs) ys h = ap (λ t. x ∷ t) (take-append_left n xs ys (ground arith))

  pub drop-drop : (m n : ℕ) (xs : List A) → drop (m + n) xs ≡ drop n (drop m xs)
  drop-drop zero n xs = let same : 0 + n ≡ n = omega arith in ap (λ k. drop k xs) same
  drop-drop (suc m) n [] = drop-nil (suc m + n) ∙ sym (drop-nil n)
  drop-drop (suc m) n (x ∷ xs) =
      let same : suc m + n ≡ suc (m + n) = omega arith in
      ap (λ k. drop k (x ∷ xs)) same ∙ drop-drop m n xs

  pub take-split :
      (n m : ℕ) (xs : List A) → n ≤ m → take m xs ≡ take n xs ++ take (m - n) (drop n xs)
  take-split zero m xs h = let same : m ≡ m - 0 = omega arith in ap (λ k. take k xs) same
  take-split (suc n) zero xs h = ground arith
  take-split (suc n) (suc m) [] h = sym (take-nil (suc m - suc n))
  take-split (suc n) (suc m) (x ∷ xs) h =
      let less : m - n ≡ suc m - suc n = omega arith in
      ap (λ t. x ∷ t)
        (take-split n m xs (ground arith) ∙ ap (λ k. take n xs ++ take k (drop n xs)) less)
