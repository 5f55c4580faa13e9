-- ===== src/Meta/Listing/Newest.antt =====
-- internal/meta/store.go: ListObjects meets each key at its newest version.
use opens.Prelude.{
  ℕ, ◌≤◌, ◌<◌, ◌≡◌, refl, sym, ap, subst, ◌∙◌, true, false, none, some, [], ◌∷◌, ◌++◌, Bytes, All,
  codes, has_prefix, has_prefix-append, arith, Option-cases, Bool-cases, inl, inr,
}
use mathlib.Core.List.{append_assoc}
use mathlib.Core.Option.{some-injective}
use opens.Kv.{Engine, lt_bytes, prefix_successor}
use opens.Kv.Lex.{
  lt_bytes_asymm, lt_bytes_trans, lt_bytes_connex, has_prefix-lt_bytes, has_prefix_between,
}
use opens.Meta.Keys.{
  separator, ver_key, object_prefix, object_scan_prefix, object_bucket_prefix, object_key,
}
use opens.Meta.Keys.Laws.{object_key-prefix}
use opens.Meta.Keys.Parts.{object_scan_prefix-has_prefix, has_prefix-common}
use opens.Meta.Types.{Object}
use opens.Meta.Store.{Codec, ok, decoded}
use opens.Meta.Latest.{first_with_prefix, get_latest}
use opens.Meta.Latest.Laws.{first_with_prefix-some, first_with_prefix-none}
use opens.Meta.Listing.Forward.{NoNul}

-- The key of a version that has the prefix of another key is a version of that key.
same_key :
    (a b d : Bytes)
    → NoNul a
    → NoNul b
    → has_prefix (a ++ separator ∷ d) (b ++ separator ∷ []) ≡ true
    → a ≡ b
unfolding has_prefix
same_key [] [] d n m h = refl
same_key [] (y ∷ b) d n m h = ground arith
same_key (x ∷ a) [] d n m h = ground arith
same_key (x ∷ a) (y ∷ b) d n m h = ground (arith, same_key a b d n.1 m.1)

pub no_separator : (s a : Bytes) → NoNul s → has_prefix s (a ++ separator ∷ []) ≡ false
unfolding has_prefix
no_separator [] [] n = refl
no_separator [] (y ∷ a) n = refl
no_separator (x ∷ s) [] n = ground arith
no_separator (x ∷ s) (y ∷ a) n = ground (arith, no_separator s a n.1)

-- Behind all versions of a key.
pub past : Bytes → Bytes
past key = key ++ 1 ∷ []

pub past-NoNul : (key : Bytes) → NoNul key → NoNul (past key)
unfolding past
past-NoNul [] n = (omega arith, tt)
past-NoNul (x ∷ key) n = (n.0, past-NoNul key n.1)

prefix_successor-last : (a : Bytes) → prefix_successor (a ++ 0 ∷ []) ≡ some (a ++ 1 ∷ [])
unfolding prefix_successor
prefix_successor-last [] = refl
prefix_successor-last (x ∷ a) = rw (prefix_successor-last a) refl

pub prefix_successor-object_prefix :
    (bucket key : Bytes)
    → prefix_successor (object_prefix bucket key) ≡ some (object_scan_prefix bucket (past key))
unfolding object_prefix object_scan_prefix past
prefix_successor-object_prefix bucket key =
    let a = codes "o/" ++ (bucket ++ b'/' ∷ key) in
    ap prefix_successor
      (ap (λ s. codes "o/" ++ s) (sym (append_assoc bucket (b'/' ∷ key) (0 ∷ []))))
    ∙ prefix_successor-last a
    ∙ ap (λ s. some (codes "o/" ++ s)) (append_assoc bucket (b'/' ∷ key) (1 ∷ []))

pub same_object :
    (bucket a b : Bytes) (n : ℕ)
    → NoNul a
    → NoNul b
    → has_prefix (object_key bucket a n) (object_prefix bucket b) ≡ true
    → a ≡ b
unfolding object_key object_prefix
same_object bucket a b n na nb h = same_key a b (ver_key n) na nb (
    sym (
      has_prefix-common (codes "o/") (bucket ++ b'/' ∷ (a ++ separator ∷ ver_key n))
        (bucket ++ b'/' ∷ (b ++ separator ∷ []))
      ∙ has_prefix-common bucket (b'/' ∷ (a ++ separator ∷ ver_key n))
          (b'/' ∷ (b ++ separator ∷ []))
      ∙ has_prefix-common (b'/' ∷ []) (a ++ separator ∷ ver_key n) (b ++ separator ∷ []))
    ∙ h)

-- Where the listing stands is not among the versions of a key.
between_keys :
    (bucket s key y k : Bytes)
    → NoNul s
    → has_prefix y (object_prefix bucket key) ≡ true
    → has_prefix k (object_prefix bucket key) ≡ true
    → lt_bytes k (object_scan_prefix bucket s) ≡ false
    → lt_bytes y (object_scan_prefix bucket s) ≡ false
unfolding object_prefix object_scan_prefix
between_keys bucket s key y k n hy hk l =
    elim (Bool-cases (lt_bytes y (object_scan_prefix bucket s))) [
      | inr e ↦ e
      | inl e ↦
          let q = object_prefix bucket key in
          let start = object_scan_prefix bucket s in
          let later : lt_bytes start q ≡ false = elim (Bool-cases (lt_bytes start q)) [
            | inr f ↦ f
            | inl f ↦ ground (
              arith,
              lt_bytes_trans start q y f (has_prefix-lt_bytes y q hy),
              lt_bytes_asymm y start,
            )
          ] in
          let inside : has_prefix start q ≡ true = has_prefix_between start k q hk later l in
          absurd (
            ground (
              arith,
              inside,
              no_separator s key n,
              has_prefix-common (codes "o/") (bucket ++ b'/' ∷ s)
                  (bucket ++ b'/' ∷ (key ++ separator ∷ [])),
              has_prefix-common bucket (b'/' ∷ s) (b'/' ∷ (key ++ separator ∷ [])),
              has_prefix-common (b'/' ∷ []) s (key ++ separator ∷ []),
            ))
    ]

-- Every record of the bucket is the version of an object whose key has no NUL byte.
abbrev pub Coherent : (kv : Engine) → Codec Object → kv.Txn → Bytes → Type 0
Coherent kv objects tx bucket =
    (x v : Bytes)
    → kv.get tx x ≡ some v
    → has_prefix x (object_bucket_prefix bucket) ≡ true
    → (o : Object) × (objects.decode v ≡ some o)
      × (x ≡ object_key bucket o.key o.seq)
      × NoNul o.key
      × (o.seq < 18446744073709551616)
      × All (λ c. c ≤ 255) x

module _ (kv : Engine) (objects : Codec Object) (tx : kv.Txn) (bucket : Bytes)
    (coherent : Coherent kv objects tx bucket) where
  pub in_bucket :
      (key k : Bytes)
      → has_prefix k (object_prefix bucket key) ≡ true
      → has_prefix k (object_bucket_prefix bucket) ≡ true
  unfolding object_bucket_prefix object_scan_prefix has_prefix
  in_bucket key k h = object_scan_prefix-has_prefix bucket key [] k h refl

  pub own_prefix :
      (key : Bytes) (n : ℕ) → has_prefix (object_key bucket key n) (object_prefix bucket key) ≡ true
  own_prefix key n =
      ap (λ s. has_prefix s (object_prefix bucket key)) (object_key-prefix bucket key n)
      ∙ has_prefix-append (object_prefix bucket key) (ver_key n)

  -- Where GetLatest finds an object at its key, its record is the first of the key.
  pub get_latest-first :
      (o : Object)
      → get_latest kv objects tx bucket o.key ≡ ok o
      → (v : Bytes) × (first_with_prefix kv tx (object_prefix bucket o.key)
          ≡ some (object_key bucket o.key o.seq, v))
        × (objects.decode v ≡ some o)
        × NoNul o.key
        × All (λ c. c ≤ 255) (object_key bucket o.key o.seq)
  unfolding get_latest decoded
  get_latest-first o h =
      elim (Option-cases (first_with_prefix kv tx (object_prefix bucket o.key))) [
        | inl e ↦ ground arith
        | inr ((x, v), e) ↦
            let (hx, gx, _) = first_with_prefix-some kv tx (object_prefix bucket o.key) x v e in
            let (p, d, at, np, s, small) = coherent x v gx (in_bucket o.key x hx) in
            let same : p ≡ o = ground arith in
            let at' : x ≡ object_key bucket o.key o.seq =
              at ∙ ap (λ (q : Object). object_key bucket q.key q.seq) same in
            (
              v,
              e ∙ ap (λ y. some (y, v)) at',
              d ∙ ap some same,
              subst (λ (q : Object). NoNul q.key) same np,
              subst (λ y. All (λ c. c ≤ 255) y) at' small,
            )
      ]

  -- The first record from where the listing stands is the newest of its key.
  module _ (s k v : Bytes) (o : Object) (n : NoNul s) (nk : NoNul o.key)
      (stored : kv.get tx k ≡ some v) (d : objects.decode v ≡ some o)
      (at : k ≡ object_key bucket o.key o.seq)
      (ahead : lt_bytes k (object_scan_prefix bucket s) ≡ false)
      (least : (y : Bytes)
        → lt_bytes y (object_scan_prefix bucket s) ≡ false
        → lt_bytes y k ≡ true
        → kv.get tx y ≡ none) where
    of_key : has_prefix k (object_prefix bucket o.key) ≡ true
    of_key = ap (λ y. has_prefix y (object_prefix bucket o.key)) at ∙ own_prefix o.key o.seq

    -- No record of the key is before it.
    not_before :
        (y w : Bytes)
        → has_prefix y (object_prefix bucket o.key) ≡ true
        → kv.get tx y ≡ some w
        → lt_bytes y k ≡ false
    not_before y w h g = ground (arith, least y (between_keys bucket s o.key y k n h of_key ahead))

    pub first-get_latest : get_latest kv objects tx bucket o.key ≡ ok o
    unfolding get_latest decoded
    first-get_latest = elim (Option-cases (first_with_prefix kv tx (object_prefix bucket o.key))) [
      | inl e ↦ ground (arith, first_with_prefix-none kv tx (object_prefix bucket o.key) k e of_key)
      | inr ((y, w), e) ↦
          let (hy, gy, before) = first_with_prefix-some kv tx (object_prefix bucket o.key) y w e in
          let same : y ≡ k =
            lt_bytes_connex y k (not_before y w hy gy) (ground (arith, before k of_key)) in
          let read : some w ≡ some v = sym gy ∙ ap (kv.get tx) same ∙ stored in
          ground (arith, ap (λ b. objects.decode b) (some-injective _ _ read))
    ]
