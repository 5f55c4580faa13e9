-- ===== src/Meta/Keys/Split.antt =====
-- Keys are taken apart into what they were built from, so that no two records share a key.
use opens.Prelude.{
  ℕ, ◌<◌, ◌≡◌, ◌≢◌, refl, sym, ap, subst, ◌∙◌, none, some, [], ◌∷◌, ◌++◌, Bytes, All, codes,
  has_prefix, has_prefix-append, length, length-append, drop-length, take-length, take, arith,
}
use mathlib.Core.List.{append-nil, append_assoc}
use opens.Meta.Hex.{hex, parse_digits}
use opens.Meta.Hex.Laws.{room, parse_digits-hex, length-hex, hex_printable}
use opens.Meta.Keys.{
  separator, complement, ver_key, object_key, cut_first, cut_last, split_version, split_object_key,
  upload_bucket_prefix, upload_key, split_upload_key, new_version_id, seq_from_version_id,
}

pub cut_first-append :
    (c : ℕ) (a b : Bytes) → All (λ x. x ≢ c) a → cut_first c (a ++ c ∷ b) ≡ some (a, b)
unfolding cut_first
cut_first-append c [] b h = ground arith
cut_first-append c (x ∷ a) b h = ground (arith, cut_first-append c a b h.1)

cut_last-none : (c : ℕ) (b : Bytes) → All (λ x. x ≢ c) b → cut_last c b ≡ none
unfolding cut_last
cut_last-none c [] h = refl
cut_last-none c (x ∷ b) h = ground (arith, cut_last-none c b h.1)

pub cut_last-append :
    (c : ℕ) (a b : Bytes) → All (λ x. x ≢ c) b → cut_last c (a ++ c ∷ b) ≡ some (a, b)
unfolding cut_last
cut_last-append c [] b h = ground (arith, cut_last-none c b h)
cut_last-append c (x ∷ a) b h = rw (cut_last-append c a b h)

read_back : (w n : ℕ) → n < room w → parse_digits 0 (hex w n) ≡ some n
unfolding parse_digits
read_back w n h = ap (parse_digits 0) (sym (append-nil (hex w n))) ∙ parse_digits-hex w n [] h

split_version-digits :
    (bucket key digits : Bytes) (v : ℕ)
    → All (λ c. c ≢ separator) digits
    → length digits ≡ 16
    → parse_digits 0 digits ≡ some v
    → split_version bucket (key ++ separator ∷ digits)
      ≡ some (record { bucket = bucket; key = key; seq = complement v })
unfolding split_version
split_version-digits bucket key digits v h l p =
    ground (arith, cut_last-append separator key digits h)

split_version-ver_key :
    (bucket key : Bytes) (seq : ℕ)
    → seq < 18446744073709551616
    → split_version bucket (key ++ separator ∷ ver_key seq)
      ≡ some (record { bucket = bucket; key = key; seq = seq })
unfolding split_version ver_key room
split_version-ver_key bucket key seq h =
    split_version-digits bucket key (hex 16 (complement seq)) (complement seq)
      (hex_printable 16 (complement seq)) (length-hex 16 (complement seq))
      (read_back 16 (complement seq) (omega arith))
    ∙ ap (λ (n : ℕ). some (record { bucket = bucket; key = key; seq = n })) (omega arith)

-- A record key is split into its bucket, key and sequence number, whatever bytes the key holds, if
-- the bucket's name has no slash and the number fits 64 bits.
pub split_object_key-object_key :
    (bucket key : Bytes) (seq : ℕ)
    → All (λ c. c ≢ b'/') bucket
    → seq < 18446744073709551616
    → split_object_key (object_key bucket key seq)
      ≡ some (record { bucket = bucket; key = key; seq = seq })
unfolding split_object_key object_key has_prefix
split_object_key-object_key bucket key seq n h =
    rw (cut_first-append b'/' bucket (key ++ separator ∷ ver_key seq) n)
      (split_version-ver_key bucket key seq h)

upload_key-prefix :
    (bucket key upload_id : Bytes)
    → upload_key bucket key upload_id
      ≡ upload_bucket_prefix bucket ++ (key ++ separator ∷ upload_id)
unfolding upload_key upload_bucket_prefix
upload_key-prefix bucket key upload_id =
    ap (λ s. codes "u/" ++ s) (sym (append_assoc bucket (b'/' ∷ []) (key ++ separator ∷ upload_id)))

-- An upload key is split into its key and upload ID, if the ID has no NUL byte.
pub split_upload_key-upload_key :
    (bucket key upload_id : Bytes)
    → All (λ c. c ≢ separator) upload_id
    → split_upload_key (upload_key bucket key upload_id) bucket ≡ some (key, upload_id)
unfolding split_upload_key
split_upload_key-upload_key bucket key upload_id h =
    rw
      (
        upload_key-prefix bucket key upload_id,
        has_prefix-append (upload_bucket_prefix bucket) (key ++ separator ∷ upload_id),
        drop-length (upload_bucket_prefix bucket) (key ++ separator ∷ upload_id),
      )
      (cut_last-append separator key upload_id h)

take-hex : (w n : ℕ) (s : Bytes) → take w (hex w n ++ s) ≡ hex w n
take-hex w n s =
    subst (λ m. take m (hex w n ++ s) ≡ hex w n) (length-hex w n) (take-length (hex w n) s)

-- The sequence number can be read from a version ID, whatever the sixteen random digits are.
pub seq_from_version_id-new_version_id :
    (seq : ℕ) (random : Bytes)
    → seq < 18446744073709551616
    → length random ≡ 16
    → seq_from_version_id (new_version_id seq random) ≡ some seq
unfolding seq_from_version_id new_version_id
seq_from_version_id-new_version_id seq random h l =
    rw (length-append (hex 16 seq) random, length-hex 16 seq, l, take-hex 16 seq random)
      (read_back 16 seq (unfold room in h))
