-- ===== src/Meta/Uploads.antt =====
-- internal/meta/store.go: the parts of uploads, DeleteUpload and ListUploads.
pub mod Laws
pub mod Page
use opens.Prelude.{
  ℕ, zero, suc, ◌+◌, ◌-◌, ◌/◌, ◌%◌, ℤ, pos, negsuc, lt_int, Bool, true, false, not, ◌&&◌, Option,
  none, some, List, [], ◌∷◌, ◌++◌, Bytes, codes, is_nil, length, ltb, leb, if◌then◌else◌,
}
use opens.Kv.{Engine, prefix_successor}
use opens.Meta.Keys.{
  separator, part_prefix, upload_key, upload_id_key, upload_bucket_prefix, upload_scan_prefix,
  split_upload_key,
}
use opens.Meta.Types.{Part, Upload}
use opens.Meta.Store.{Codec, undecodable}
use opens.Meta.Scan.{
  Scanned, done, broken, panicked, endless, Move, next, jump, leave, scan, enough,
}
use opens.Meta.Collect.{each, append}
use opens.Meta.Listing.{
  ListOptions, Collapsed, single, outside, under, collapsed, page_size, jump_to,
}

-- The decimal digits of a number.
pub digits : ℕ → ℕ → Bytes
digits zero n = []
digits (suc fuel) n =
    let rest = digits fuel (n / 10) in
    if ltb n 10 then (48 + n) ∷ [] else rest ++ (48 + n % 10) ∷ []

pub zeros : ℕ → Bytes
zeros zero = []
zeros (suc n) = b'0' ∷ zeros n

pub padded : ℕ → Bytes → Bytes
unfolding zeros
padded width s = zeros (width - length s) ++ s

-- fmt.Sprintf("%05d", n)
pub five_digits : ℤ → Bytes
unfolding padded digits
five_digits (pos n) = padded 5 (digits (n + 1) n)
five_digits (negsuc n) = b'-' ∷ padded 4 (digits (n + 2) (n + 1))

-- PartKey(bucket, uploadID, n)
pub part_key : Bytes → Bytes → ℤ → Bytes
unfolding five_digits
part_key bucket upload_id n = part_prefix bucket upload_id ++ five_digits n

-- max > 0 && len(out) >= max
abbrev pub full : ℤ → List Part → Bool
full (pos max) out = ltb 0 max && leb max (length out)
full (negsuc n) out = false

pub record UploadListResult : Type 0 where
  pub uploads : List Upload
  pub prefixes : List Bytes
  pub is_truncated : Bool
  pub next_key : Bytes
  pub next_upload_id : Bytes

module _ (kv : Engine) (parts : Codec Part) where
  open kv use {Txn, get, put, delete}

  -- PutPart(tx, bucket, uploadID, p): the part that it replaces, if that can be decoded
  pub put_part : Txn → Bytes → Bytes → Part → Option Part × Txn
  unfolding part_key
  put_part tx bucket upload_id p = (
    elim (get tx (part_key bucket upload_id p.number)) [ none ↦ none | some b ↦ parts.decode b ],
    put tx (part_key bucket upload_id p.number) (parts.encode p),
  )

  -- ListParts(tx, bucket, uploadID, afterPart, max)
  pub list_parts : Txn → Bytes → Bytes → ℤ → ℤ → Scanned (List Part)
  unfolding part_key
  list_parts tx bucket upload_id after_part max =
      each kv parts (full max) append tx (part_prefix bucket upload_id)
        (if lt_int (pos 0) after_part
          then part_key bucket upload_id after_part ++ 0 ∷ []
          else part_prefix bucket upload_id)
        []

  -- The loop of DeleteUpload over the parts.
  pub delete_parts : Bytes → Bytes → List Part → Txn → Txn
  delete_parts bucket upload_id [] tx = tx
  delete_parts bucket upload_id (p ∷ ps) tx =
      delete_parts bucket upload_id ps (delete tx (part_key bucket upload_id p.number))

  -- DeleteUpload(tx, u): the parts, whose blobs the caller deletes
  pub delete_upload : Txn → Upload → Scanned (List Part × Txn)
  unfolding list_parts delete_parts
  delete_upload tx u = elim (list_parts tx u.bucket u.upload_id (pos 0) (pos 0)) [
    | broken e ↦ broken e
    | panicked ↦ panicked
    | endless ↦ endless
    | done ps ↦ done (
      ps,
      delete (delete (delete_parts u.bucket u.upload_id ps tx) (upload_id_key u.bucket u.upload_id))
          (upload_key u.bucket u.key u.upload_id),
    )
  ]

module _ (kv : Engine) (codec : Codec Upload) (tx : kv.Txn) (bucket : Bytes)
    (opt : ListOptions) where
  abbrev pub listed : UploadListResult → ℕ
  listed res = length res.uploads + length res.prefixes

  abbrev pub cut_short : UploadListResult → Scanned UploadListResult
  cut_short res = done (record res { is_truncated = true })

  -- A record whose key falls under a common prefix.
  unfoldable pub upload_prefix_step : Bytes → UploadListResult → Move UploadListResult
  upload_prefix_step cp res =
      if leb (page_size opt.max_keys) (listed res)
      then leave (cut_short res)
      else jump_to (prefix_successor (upload_scan_prefix bucket cp)) [] (record {
        uploads = res.uploads;
        prefixes = res.prefixes ++ cp ∷ [];
        is_truncated = res.is_truncated;
        next_key = cp;
        next_upload_id = [];
      })

  -- A record that is listed itself.
  pub upload_step : Bytes → Bytes → Bytes → UploadListResult → Move UploadListResult
  upload_step key uid v res =
      if leb (page_size opt.max_keys) (listed res)
      then leave (cut_short res)
      else elim (codec.decode v) [
        | none ↦ leave (broken undecodable)
        | some u ↦ next (record {
          uploads = res.uploads ++ u ∷ [];
          prefixes = res.prefixes;
          is_truncated = res.is_truncated;
          next_key = key;
          next_upload_id = uid;
        })
      ]

  -- The body of the loop of ListUploads.
  unfoldable pub uploads_body : Bytes → Bytes → UploadListResult → Move UploadListResult
  unfolding upload_prefix_step upload_step
  uploads_body k v res = elim (split_upload_key k bucket) [
    | none ↦ next res
    | some (key, uid) ↦ elim (collapsed opt key) [
      | outside ↦ leave panicked
      | under cp ↦ upload_prefix_step cp res
      | single ↦ upload_step key uid v res
    ]
  ]

  -- Where ListUploads starts: tx.Seek(nil) is the first key of all.
  unfoldable pub uploads_start : Bytes
  uploads_start =
      if is_nil opt.key_marker
      then upload_scan_prefix bucket opt.prefix
      else if is_nil opt.version_marker
      then elim (prefix_successor (upload_key bucket opt.key_marker [])) [ none ↦ [] | some s ↦ s ]
      else upload_key bucket opt.key_marker opt.version_marker ++ 0 ∷ []

  -- ListUploads(tx, bucket, opt)
  unfoldable pub list_uploads : Scanned UploadListResult
  unfolding uploads_start uploads_body
  list_uploads =
      scan kv (enough kv tx) tx (upload_scan_prefix bucket opt.prefix) uploads_body uploads_start
        (record {
          uploads = [];
          prefixes = [];
          is_truncated = false;
          next_key = [];
          next_upload_id = [];
        })
