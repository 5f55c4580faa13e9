-- ===== src/Meta/Scan/Laws.antt =====
-- The invariant rule of a scan. It shows at the same time that the fuel is enough.
use opens.Prelude.{
  ℕ, zero, suc, ◌≤◌, ◌<◌, ◌≡◌, refl, inl, inr, Bool, true, false, not, none, some, List, [], ◌∷◌,
  Bytes, In, has_prefix, length, arith, Option-cases, if◌then◌else◌,
}
use opens.Kv.{Engine, lt_bytes}
use opens.Kv.Lex.{lt_bytes_asymm, lt_bytes_trans, has_prefix_between}
use opens.Meta.Scan.{Scanned, done, Move, next, jump, leave, behind, first_from, scan, enough}

count : {A : Type 0} → (A → Bool) → List A → ℕ
count f [] = 0
count f (x ∷ xs) = let rest = count f xs in if f x then suc rest else rest

count-length : {A : Type 0} (f : A → Bool) (xs : List A) → count f xs ≤ length xs
unfolding count
count-length f [] = omega arith
count-length f (x ∷ xs) = ground (arith, count-length f xs)

count-le :
    {A : Type 0} (f g : A → Bool) (xs : List A)
    → ((x : A) → f x ≡ true → g x ≡ true)
    → count f xs ≤ count g xs
unfolding count
count-le f g [] h = omega arith
count-le f g (x ∷ xs) h = ground (arith, count-le f g xs h, h x)

-- An item that only the second test lets pass is counted there.
count-lt :
    {A : Type 0} (f g : A → Bool) (xs : List A) (a : A)
    → ((x : A) → f x ≡ true → g x ≡ true)
    → In a xs
    → f a ≡ false
    → g a ≡ true
    → count f xs < count g xs
unfolding count
count-lt f g [] a h m p q = absurd m
count-lt f g (x ∷ xs) a h (inl e) p q = rw (e, p, q) (omega (arith, count-le f g xs h))
count-lt f g (x ∷ xs) a h (inr m) p q = ground (arith, count-lt f g xs a h m p q, h x)

pub behind_lt : (k : Bytes) → lt_bytes k (behind k) ≡ true
unfolding lt_bytes
behind_lt [] = refl
behind_lt (x ∷ k) = ground (arith, behind_lt k)

module _ {S : Type 0} (P : Bytes → S → Type 0) (Q : Scanned S → Type 0) where
  -- What the body has to leave: the invariant at a later key, or the conclusion.
  abbrev pub Moves : Bytes → Move S → Type 0
  Moves k (next s) = P (behind k) s
  Moves k (jump to s) = (lt_bytes k to ≡ true) × P to s
  Moves k (leave r) = Q r

module _ (kv : Engine) (tx : kv.Txn) where
  -- What `first_from` finds: a record with the prefix that is not before the start, and there is none between.
  pub first_from-some :
      (p start k v : Bytes)
      → first_from kv tx p start ≡ some (k, v)
      → (has_prefix k p ≡ true)
        × (lt_bytes k start ≡ false)
        × (kv.get tx k ≡ some v)
        × ((y : Bytes) → lt_bytes y start ≡ false → lt_bytes y k ≡ true → kv.get tx y ≡ none)
  unfolding first_from
  first_from-some p start k v h = elim (Option-cases (kv.seek tx start)) [
    | inl e ↦ ground arith
    | inr ((x, w), e) ↦
        let at_x : kv.seek tx start ≡ some (k, v) = ground arith in
        let (a, b) = kv.seek_found tx start k v at_x in
        (ground arith, a, b, λ y. kv.seek_least tx start k v y at_x)
  ]

  -- Where it finds nothing there is no record with the prefix from the start on.
  pub first_from-none :
      (p start y : Bytes)
      → first_from kv tx p start ≡ none
      → lt_bytes start p ≡ false
      → has_prefix y p ≡ true
      → lt_bytes y start ≡ false
      → kv.get tx y ≡ none
  unfolding first_from
  first_from-none p start y h sp yp ys = elim (Option-cases (kv.seek tx start)) [
    | inl e ↦ kv.seek_none tx start y e ys
    | inr ((x, w), e) ↦ ground (
      arith,
      kv.seek_found tx start x w e,
      has_prefix_between x y p yp,
      lt_bytes_trans x p start,
      lt_bytes_asymm x start,
      kv.seek_least tx start x w y e ys,
    )
  ]

  -- The keys that are not before a start.
  pub remaining : Bytes → ℕ
  unfolding count
  remaining start = count (λ k. not (lt_bytes k start)) (kv.keys tx)

  remaining-enough : (start : Bytes) → remaining start < enough kv tx
  unfolding remaining
  remaining-enough start = omega (arith, count-length (λ k. not (lt_bytes k start)) (kv.keys tx))

  remaining-less :
      (start k to v : Bytes)
      → lt_bytes k start ≡ false
      → lt_bytes k to ≡ true
      → kv.get tx k ≡ some v
      → remaining to < remaining start
  unfolding remaining
  remaining-less start k to v a b g =
      count-lt (λ x. not (lt_bytes x to)) (λ x. not (lt_bytes x start)) (kv.keys tx) k
        (λ x h. later x (ground (arith, h))) (kv.get_keys tx k v g) (rw b refl) (rw a refl)
    where
      later : (x : Bytes) → lt_bytes x to ≡ false → not (lt_bytes x start) ≡ true
      later x h =
          ground (arith, lt_bytes_trans x start k, lt_bytes_asymm k to, lt_bytes_trans x k to)

  module _ {S : Type 0} (p : Bytes) (body : Bytes → Bytes → S → Move S) (P : Bytes → S → Type 0)
      (Q : Scanned S → Type 0) where
    moves :
        (fuel : ℕ) (start k v : Bytes) (m : Move S)
        → ((to : Bytes) (s : S) → remaining to < fuel → P to s → Q (scan kv fuel tx p body to s))
        → remaining start < suc fuel
        → first_from kv tx p start ≡ some (k, v)
        → Moves P Q k m
        → Q (elim m [
          | next s ↦ scan kv fuel tx p body (behind k) s
          | jump to s ↦ scan kv fuel tx p body to s
          | leave r ↦ r
        ])
    moves fuel start k v (next s) ih f e h =
        let (_, a, g, _) = first_from-some p start k v e in
        ih (behind k) s (omega (arith, remaining-less start k (behind k) v a (behind_lt k) g)) h
    moves fuel start k v (jump to s) ih f e h =
        let (_, a, g, _) = first_from-some p start k v e in
        ih to s (omega (arith, remaining-less start k to v a h.0 g)) h.1
    moves fuel start k v (leave r) ih f e h = h

    -- The rule: `P start s` holds at each position, and `Q` of what the loop ends with.
    pub scan_lem :
        ((start : Bytes) (s : S) → P start s → first_from kv tx p start ≡ none → Q (done s))
        → ((start k v : Bytes) (s : S)
            → P start s
            → first_from kv tx p start ≡ some (k, v)
            → Moves P Q k (body k v s))
        → (fuel : ℕ) (start : Bytes) (s : S) → remaining start < fuel
        → P start s
        → Q (scan kv fuel tx p body start s)
    unfolding scan
    scan_lem at_end at_record zero start s f h = absurd (omega arith)
    scan_lem at_end at_record (suc fuel) start s f h =
        elim (Option-cases (first_from kv tx p start)) [
          | inl e ↦ rw (e, scan) (at_end start s h e)
          | inr ((k, v), e) ↦
              rw (e, scan)
                (moves fuel start k v (body k v s) (λ to s'. scan_lem at_end at_record fuel to s') f
                  e (at_record start k v s h e))
        ]

    pub scan_enough_lem :
        ((start : Bytes) (s : S) → P start s → first_from kv tx p start ≡ none → Q (done s))
        → ((start k v : Bytes) (s : S)
            → P start s
            → first_from kv tx p start ≡ some (k, v)
            → Moves P Q k (body k v s))
        → (start : Bytes) (s : S) → P start s
        → Q (scan kv (enough kv tx) tx p body start s)
    scan_enough_lem at_end at_record start s =
        scan_lem at_end at_record (enough kv tx) start s (remaining-enough start)
