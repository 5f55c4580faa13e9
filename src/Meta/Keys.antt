-- ===== src/Meta/Keys.antt =====
-- internal/meta/keys.go: the keys of records, version IDs and the sequencer.
pub mod Split
pub mod Parts
pub mod Laws
use opens.Prelude.{
  ℕ, zero, suc, ◌+◌, ◌-◌, ◌*◌, ◌%◌, ◌^◌, Bool, true, false, not, Option, none, some, [], ◌∷◌, ◌++◌,
  Bytes, codes, has_prefix, length, take, drop, leb, ◌==◌, if◌then◌else◌,
}
use mathlib.Core.Option
use opens.Meta.Hex.{hex, parse_digits}

abbrev pub null_version_id : Bytes
null_version_id = codes "null"

-- sep
abbrev pub separator : ℕ
separator = 0

-- ^seq on uint64
abbrev pub complement : ℕ → ℕ
complement seq = 18446744073709551615 - seq

-- verKey(seq)
unfoldable pub ver_key : ℕ → Bytes
ver_key seq = hex 16 (complement seq)

-- BucketKey, BucketPrefix
unfoldable pub bucket_key : Bytes → Bytes
bucket_key name = codes "b/" ++ name

abbrev pub bucket_prefix : Bytes
bucket_prefix = codes "b/"

-- ObjectBucketPrefix, ObjectPrefix, ObjectScanPrefix, ObjectKey
unfoldable pub object_bucket_prefix : Bytes → Bytes
object_bucket_prefix bucket = codes "o/" ++ (bucket ++ b'/' ∷ [])

unfoldable pub object_prefix : Bytes → Bytes → Bytes
object_prefix bucket key = codes "o/" ++ (bucket ++ b'/' ∷ (key ++ separator ∷ []))

unfoldable pub object_scan_prefix : Bytes → Bytes → Bytes
object_scan_prefix bucket prefix = codes "o/" ++ (bucket ++ b'/' ∷ prefix)

unfoldable pub object_key : Bytes → Bytes → ℕ → Bytes
object_key bucket key seq = codes "o/" ++ (bucket ++ b'/' ∷ (key ++ separator ∷ ver_key seq))

-- strings.IndexByte and strings.LastIndex of one byte, as what is before and behind it
unfoldable pub cut_first : ℕ → Bytes → Option (Bytes × Bytes)
cut_first c [] = none
cut_first c (x ∷ s) =
    let later =
      Option.map (λ (r : Bytes × Bytes). let q : Bytes × Bytes = (x ∷ r.0, r.1) in q)
        (cut_first c s) in
    if x == c then some ([], s) else later

unfoldable pub cut_last : ℕ → Bytes → Option (Bytes × Bytes)
cut_last c [] = none
cut_last c (x ∷ s) = elim (cut_last c s) [
  | some (a, b) ↦ some (x ∷ a, b)
  | none ↦ if x == c then some ([], s) else none
]

-- What SplitObjectKey returns where `ok` is true.
pub record ObjectName : Type 0 where
  pub bucket : Bytes
  pub key : Bytes
  pub seq : ℕ

-- The part of SplitObjectKey behind the bucket.
unfoldable pub split_version : Bytes → Bytes → Option ObjectName
split_version bucket rest = elim (cut_last separator rest) [
  | none ↦ none
  | some (key, digits) ↦
      if not (length digits == 16)
      then none
      else Option.map (λ v. record { bucket = bucket; key = key; seq = complement v })
          (parse_digits 0 digits)
]

-- SplitObjectKey(k)
unfoldable pub split_object_key : Bytes → Option ObjectName
unfolding split_version
split_object_key k =
    if not (has_prefix k (codes "o/")) then none else elim (cut_first b'/' (drop 2 k)) [
      | none ↦ none
      | some (bucket, rest) ↦ split_version bucket rest
    ]

-- NullKey, NullBucketPrefix
unfoldable pub null_key : Bytes → Bytes → Bytes
null_key bucket key = codes "n/" ++ (bucket ++ b'/' ∷ key)

pub null_bucket_prefix : Bytes → Bytes
null_bucket_prefix bucket = codes "n/" ++ (bucket ++ b'/' ∷ [])

-- UploadKey, UploadBucketPrefix, UploadScanPrefix
unfoldable pub upload_key : Bytes → Bytes → Bytes → Bytes
upload_key bucket key upload_id = codes "u/" ++ (bucket ++ b'/' ∷ (key ++ separator ∷ upload_id))

unfoldable pub upload_bucket_prefix : Bytes → Bytes
upload_bucket_prefix bucket = codes "u/" ++ (bucket ++ b'/' ∷ [])

unfoldable pub upload_scan_prefix : Bytes → Bytes → Bytes
upload_scan_prefix bucket prefix = codes "u/" ++ (bucket ++ b'/' ∷ prefix)

-- SplitUploadKey(k, bucket), as (key, uploadID)
unfoldable pub split_upload_key : Bytes → Bytes → Option (Bytes × Bytes)
split_upload_key k bucket =
    if not (has_prefix k (upload_bucket_prefix bucket))
    then none
    else cut_last separator (drop (length (upload_bucket_prefix bucket)) k)

-- UploadIDKey
unfoldable pub upload_id_key : Bytes → Bytes → Bytes
upload_id_key bucket upload_id = codes "ui/" ++ (bucket ++ b'/' ∷ upload_id)

-- PartPrefix
pub part_prefix : Bytes → Bytes → Bytes
part_prefix bucket upload_id = codes "p/" ++ (bucket ++ b'/' ∷ (upload_id ++ b'/' ∷ []))

-- NewVersionID(seq), from the sixteen digits of its eight random bytes
unfoldable pub new_version_id : ℕ → Bytes → Bytes
new_version_id seq random = hex 16 seq ++ random

-- SeqFromVersionID(vid); `none` is ErrBadVersionID
unfoldable pub seq_from_version_id : Bytes → Option ℕ
seq_from_version_id vid = if not (length vid == 32) then none else parse_digits 0 (take 16 vid)

-- Sequencer.Next(): the number that is returned is also the new `last`; `now` is the clock, a uint64
pub next : ℕ → ℕ → ℕ
next last now = if leb now last then (last + 1) % 2 ^ 64 else now
