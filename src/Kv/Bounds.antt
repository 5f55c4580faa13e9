-- ===== src/Kv/Bounds.antt =====
-- `PrefixSuccessor` bounds a scan: the keys from the prefix to its successor are those that have it.
use opens.Prelude.{
  ℕ, ◌≤◌, ◌≡◌, refl, inl, inr, Bool, true, not, ◌&&◌, ◌||◌, Option, none, some, [], ◌∷◌, ◌++◌,
  Bytes, All, has_prefix, eq_bytes, ltb, length, arith, Option-cases,
}
use opens.Kv.{lt_bytes, prefix_successor}

-- The key is below a bound, if there is one.
abbrev pub below : Option Bytes → Bytes → Bool
below none k = true
below (some q) k = lt_bytes k q

-- A key of bytes has the prefix exactly if it is at least the prefix and below the successor of the prefix; if
-- there is no successor, every key from the prefix on has it.
pub prefix_successor-below :
    (p k : Bytes)
    → All (λ c. c ≤ 255) k
    → has_prefix k p ≡ (not (lt_bytes k p) && below (prefix_successor p) k)
unfolding has_prefix lt_bytes prefix_successor
prefix_successor-below [] k h = refl
prefix_successor-below (c ∷ p) [] h = refl
prefix_successor-below (c ∷ p) (x ∷ k) h = elim (Option-cases (prefix_successor p)) [
  | inl e ↦ ground (arith, prefix_successor-below p k h.1)
  | inr (q, e) ↦ ground (arith, prefix_successor-below p k h.1)
]

-- A common front does not matter for the order.
pub lt_bytes-append : (p a b : Bytes) → lt_bytes (p ++ a) (p ++ b) ≡ lt_bytes a b
unfolding lt_bytes
lt_bytes-append [] a b = refl
lt_bytes-append (x ∷ p) a b = ground (arith, lt_bytes-append p a b)

-- Texts of the same length are compared by their last bytes only if they agree before.
pub lt_bytes-last :
    (a b : Bytes) (x y : ℕ)
    → length a ≡ length b
    → lt_bytes (a ++ x ∷ []) (b ++ y ∷ []) ≡ (lt_bytes a b || (eq_bytes a b && ltb x y))
unfolding lt_bytes eq_bytes
lt_bytes-last [] [] x y h = ground arith
lt_bytes-last [] (d ∷ b) x y h = ground arith
lt_bytes-last (c ∷ a) [] x y h = ground arith
lt_bytes-last (c ∷ a) (d ∷ b) x y h = ground (arith, lt_bytes-last a b x y)

-- A key with a prefix is below the successor of the prefix.
pub has_prefix-prefix_successor :
    (p k q : Bytes) → has_prefix k p ≡ true → prefix_successor p ≡ some q → lt_bytes k q ≡ true
unfolding has_prefix lt_bytes prefix_successor
has_prefix-prefix_successor [] k q h e = ground arith
has_prefix-prefix_successor (c ∷ p) [] q h e = ground arith
has_prefix-prefix_successor (c ∷ p) (x ∷ k) q h e = elim (Option-cases (prefix_successor p)) [
  | inl f ↦ ground arith
  | inr (r, f) ↦ ground (arith, has_prefix-prefix_successor p k r)
]
