-- ===== src/Meta/Keys/Parts.antt =====
-- internal/meta/keys.go: what a record key is, given that it can be split.
use opens.Prelude.{
  ℕ, ◌≡◌, ◌≢◌, refl, sym, ap, ◌∙◌, true, some, [], ◌∷◌, ◌++◌, Bytes, All, codes, has_prefix,
  has_prefix_sound, has_prefix-append, length, drop, arith, Option-cases, Bool-cases, inl, inr,
}
use mathlib.Core.List.{append_assoc}
use opens.Meta.Hex.{parse_digits}
use opens.Meta.Keys.{
  separator, object_prefix, object_bucket_prefix, object_scan_prefix, ObjectName, cut_last,
  split_version, split_object_key, upload_bucket_prefix, upload_scan_prefix, split_upload_key,
}
use opens.Meta.Keys.Split.{cut_first-append}

cut_last-some : (c : ℕ) (s a b : Bytes) → cut_last c s ≡ some (a, b) → s ≡ a ++ c ∷ b
unfolding cut_last
cut_last-some c [] a b h = ground arith
cut_last-some c (x ∷ s) a b h = elim (Option-cases (cut_last c s)) [
  | inl e ↦ ground arith
  | inr ((d, f), e) ↦ ground (arith, cut_last-some c s d f e)
]

split_version-some :
    (bucket rest : Bytes) (name : ObjectName)
    → split_version bucket rest ≡ some name
    → (digits : Bytes) × (name.bucket ≡ bucket) × (rest ≡ name.key ++ separator ∷ digits)
unfolding split_version
split_version-some bucket rest name h = elim (Option-cases (cut_last separator rest)) [
  | inl e ↦ ground arith
  | inr ((key, digits), e) ↦ elim (Option-cases (parse_digits 0 digits)) [
    | inl f ↦ ground arith
    | inr (v, f) ↦ (digits, ground arith, ground (arith, cut_last-some separator rest key digits e))
  ]
]

-- A text before a byte that the prefix does not have.
has_prefix-before :
    (c : ℕ) (s t p : Bytes)
    → All (λ x. x ≢ c) p
    → has_prefix (s ++ c ∷ t) p ≡ true
    → has_prefix s p ≡ true
unfolding has_prefix
has_prefix-before c s t [] n h = refl
has_prefix-before c [] t (y ∷ p) n h = ground arith
has_prefix-before c (x ∷ s) t (y ∷ p) n h = ground (arith, has_prefix-before c s t p n.1)

split_object_key-below :
    (bucket rest : Bytes)
    → All (λ c. c ≢ b'/') bucket
    → split_object_key (codes "o/" ++ (bucket ++ b'/' ∷ rest)) ≡ split_version bucket rest
unfolding split_object_key has_prefix
split_object_key-below bucket rest n = rw (cut_first-append b'/' bucket rest n) refl

object_prefix-shape :
    (bucket key digits : Bytes)
    → object_prefix bucket key ++ digits
      ≡ codes "o/" ++ (bucket ++ b'/' ∷ (key ++ separator ∷ digits))
unfolding object_prefix
object_prefix-shape bucket key digits =
    ap (λ s. codes "o/" ++ s)
      (append_assoc bucket (b'/' ∷ (key ++ separator ∷ [])) digits
        ∙ ap (λ s. bucket ++ b'/' ∷ s) (append_assoc key (separator ∷ []) digits))

-- A record key below the scan prefix of a bucket and a prefix.
module _ (bucket prefix k : Bytes) (name : ObjectName) (nb : All (λ c. c ≢ b'/') bucket)
    (h : has_prefix k (object_scan_prefix bucket prefix) ≡ true)
    (e : split_object_key k ≡ some name) where
  abbrev rest : Bytes
  rest = drop (length (object_scan_prefix bucket prefix)) k

  shape : k ≡ codes "o/" ++ (bucket ++ b'/' ∷ (prefix ++ rest))
  unfolding object_scan_prefix
  shape =
      has_prefix_sound k (object_scan_prefix bucket prefix) h
      ∙ ap (λ s. codes "o/" ++ s) (append_assoc bucket (b'/' ∷ prefix) rest)

  parts :
      (digits : Bytes) × (name.bucket ≡ bucket) × (prefix ++ rest ≡ name.key ++ separator ∷ digits)
  parts =
      split_version-some bucket (prefix ++ rest) name
        (sym (ap split_object_key shape ∙ split_object_key-below bucket (prefix ++ rest) nb) ∙ e)

  -- It begins with the object prefix of its key.
  pub split_object_key-at : (digits : Bytes) × (k ≡ object_prefix bucket name.key ++ digits)
  split_object_key-at =
      let (digits, _, cut) = parts in
      (
        digits,
        shape
            ∙ ap (λ s. codes "o/" ++ (bucket ++ b'/' ∷ s)) cut
            ∙ sym (object_prefix-shape bucket name.key digits),
      )

  pub split_object_key-has_prefix : has_prefix k (object_prefix bucket name.key) ≡ true
  split_object_key-has_prefix =
      let (digits, at) = split_object_key-at in
      ap (λ s. has_prefix s (object_prefix bucket name.key)) at
      ∙ has_prefix-append (object_prefix bucket name.key) digits

  -- Its key has the prefix, unless a NUL byte in the prefix reaches into the digits.
  pub split_object_key-prefix : All (λ c. c ≢ separator) prefix → has_prefix name.key prefix ≡ true
  split_object_key-prefix np =
      let (digits, _, cut) = parts in
      has_prefix-before separator name.key digits prefix np
        (rw (← cut) (has_prefix-append prefix rest))

pub has_prefix_trans :
    (k q p : Bytes) → has_prefix k q ≡ true → has_prefix q p ≡ true → has_prefix k p ≡ true
unfolding has_prefix
has_prefix_trans k q [] h g = refl
has_prefix_trans k [] (x ∷ p) h g = ground arith
has_prefix_trans [] (y ∷ q) (x ∷ p) h g = ground arith
has_prefix_trans (z ∷ k) (y ∷ q) (x ∷ p) h g = ground (arith, has_prefix_trans k q p)

pub has_prefix-common : (a s p : Bytes) → has_prefix (a ++ s) (a ++ p) ≡ has_prefix s p
unfolding has_prefix
has_prefix-common [] s p = refl
has_prefix-common (x ∷ a) s p = ground (arith, has_prefix-common a s p)

-- A version of a key with a prefix is below the scan prefix of that prefix.
pub object_scan_prefix-has_prefix :
    (bucket key prefix k : Bytes)
    → has_prefix k (object_prefix bucket key) ≡ true
    → has_prefix key prefix ≡ true
    → has_prefix k (object_scan_prefix bucket prefix) ≡ true
unfolding object_prefix object_scan_prefix
object_scan_prefix-has_prefix bucket key prefix k h g =
    has_prefix_trans k (object_prefix bucket key) (object_scan_prefix bucket prefix) h (
      has_prefix-common (codes "o/") (bucket ++ b'/' ∷ (key ++ separator ∷ []))
        (bucket ++ b'/' ∷ prefix)
      ∙ has_prefix-common bucket (b'/' ∷ (key ++ separator ∷ [])) (b'/' ∷ prefix)
      ∙ has_prefix-common (b'/' ∷ []) (key ++ separator ∷ []) prefix
      ∙ has_prefix_trans (key ++ separator ∷ []) key prefix (has_prefix-append key (separator ∷ []))
          g)

-- A record below a scan prefix of a bucket is a record of the bucket.
pub object_scan_prefix-bucket :
    (bucket prefix k : Bytes)
    → has_prefix k (object_scan_prefix bucket prefix) ≡ true
    → has_prefix k (object_bucket_prefix bucket) ≡ true
unfolding object_scan_prefix object_bucket_prefix has_prefix
object_scan_prefix-bucket bucket prefix k h =
    has_prefix_trans k (object_scan_prefix bucket prefix) (object_bucket_prefix bucket) h (
      has_prefix-common (codes "o/") (bucket ++ b'/' ∷ prefix) (bucket ++ b'/' ∷ [])
      ∙ has_prefix-common bucket (b'/' ∷ prefix) (b'/' ∷ [])
      ∙ has_prefix-common (b'/' ∷ []) prefix [])

-- A record key of an upload below a scan prefix: its key has the prefix, if that has no NUL byte, and what
-- the key has as a prefix, the record key has as a scan prefix.
module _ (bucket prefix k key uid : Bytes)
    (h : has_prefix k (upload_scan_prefix bucket prefix) ≡ true)
    (e : split_upload_key k bucket ≡ some (key, uid)) where
  upload_shape : k ≡ upload_bucket_prefix bucket ++ (key ++ separator ∷ uid)
  unfolding split_upload_key
  upload_shape = elim (Bool-cases (has_prefix k (upload_bucket_prefix bucket))) [
    | inr f ↦ ground arith
    | inl f ↦
        has_prefix_sound k (upload_bucket_prefix bucket) f
        ∙ ap (λ s. upload_bucket_prefix bucket ++ s)
            (cut_last-some separator (drop (length (upload_bucket_prefix bucket)) k) key uid
              (ground arith))
  ]

  upload_shape-has_prefix :
      (p : Bytes)
      → has_prefix k (upload_scan_prefix bucket p) ≡ has_prefix (key ++ separator ∷ uid) p
  unfolding upload_scan_prefix upload_bucket_prefix
  upload_shape-has_prefix p =
      ap (λ s. has_prefix s (upload_scan_prefix bucket p))
        (upload_shape
          ∙ ap (λ s. codes "u/" ++ s) (append_assoc bucket (b'/' ∷ []) (key ++ separator ∷ uid)))
      ∙ has_prefix-common (codes "u/") (bucket ++ b'/' ∷ (key ++ separator ∷ uid))
          (bucket ++ b'/' ∷ p)
      ∙ has_prefix-common bucket (b'/' ∷ (key ++ separator ∷ uid)) (b'/' ∷ p)
      ∙ has_prefix-common (b'/' ∷ []) (key ++ separator ∷ uid) p

  pub split_upload_key-prefix : All (λ c. c ≢ separator) prefix → has_prefix key prefix ≡ true
  split_upload_key-prefix np =
      has_prefix-before separator key uid prefix np (sym (upload_shape-has_prefix prefix) ∙ h)

  pub upload_scan_prefix-has_prefix :
      (p : Bytes) → has_prefix key p ≡ true → has_prefix k (upload_scan_prefix bucket p) ≡ true
  upload_scan_prefix-has_prefix p g =
      upload_shape-has_prefix p
      ∙ has_prefix_trans (key ++ separator ∷ uid) key p (has_prefix-append key (separator ∷ uid)) g
