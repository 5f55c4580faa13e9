-- ===== src/Meta/Store.antt =====
-- internal/meta/store.go: buckets, object versions and uploads in a transaction. `encode` and `decode`
-- are encoding/json on the record types.
pub mod Versions
pub mod Dropped
pub mod Nulls
use opens.Prelude.{
  ℕ, ◌≡◌, Bool, true, false, Option, none, some, [], ◌∷◌, ◌++◌, Bytes, codes, eq_bytes, is_nil,
  if◌then◌else◌, not, ◌&&◌,
}
use opens.Kv.{Engine}
use opens.Meta.Keys.{
  null_version_id, ver_key, bucket_key, object_prefix, object_key, null_key, upload_key,
  upload_id_key, seq_from_version_id,
}
use opens.Meta.Types.{Bucket, Object, Upload}

-- A record type in JSON: what is encoded is decoded again; `none` is an error.
pub record Codec (A : Type 0) : Type 0 where
  pub encode : A → Bytes
  pub decode : Bytes → Option A
  pub decode_encode : (x : A) → decode (encode x) ≡ some x

pub data StoreError : Type 0 where
  not_found exists undecodable : StoreError

pub data Result (A : Type 0) : Type 0 where
  ok : A → Result A
  failed : StoreError → Result A

-- The record that a Get has found, decoded.
unfoldable pub decoded : {A : Type 0} → Codec A → Option Bytes → Result A
decoded c none = failed not_found
decoded c (some b) = elim (c.decode b) [ none ↦ failed undecodable | some x ↦ ok x ]

-- Object.IsNull()
unfoldable pub is_null : Object → Bool
is_null o = eq_bytes o.version_id null_version_id

-- The check at the end of GetVersion.
unfoldable pub of_version : Bytes → Result Object → Result Object
of_version version_id (failed e) = failed e
of_version version_id (ok o) = if eq_bytes o.version_id version_id then ok o else failed not_found

module _ (kv : Engine) where
  open kv use {Txn, get, put, delete}

  module _ (buckets : Codec Bucket) where
    -- GetBucket, CreateBucket, PutBucket, DeleteBucket
    unfoldable pub get_bucket : Txn → Bytes → Result Bucket
    unfolding decoded
    get_bucket tx name = decoded buckets (get tx (bucket_key name))

    pub create_bucket : Txn → Bucket → Result Txn
    create_bucket tx bk = elim (get tx (bucket_key bk.name)) [
      | some _ ↦ failed exists
      | none ↦ ok (put tx (bucket_key bk.name) (buckets.encode bk))
    ]

    pub put_bucket : Txn → Bucket → Txn
    put_bucket tx bk = put tx (bucket_key bk.name) (buckets.encode bk)

  pub delete_bucket : Txn → Bytes → Txn
  delete_bucket tx name = delete tx (bucket_key name)

  module _ (objects : Codec Object) where
    -- GetVersion(tx, bucket, key, versionID)
    unfoldable pub get_version : Txn → Bytes → Bytes → Bytes → Result Object
    unfolding decoded of_version
    get_version tx bucket key version_id =
        if eq_bytes version_id null_version_id
        then elim (get tx (null_key bucket key)) [
          | none ↦ failed not_found
          | some vk ↦ decoded objects (get tx (object_prefix bucket key ++ vk))
        ]
        else elim (seq_from_version_id version_id) [
          | none ↦ failed not_found
          | some seq ↦ of_version version_id (decoded objects (get tx (object_key bucket key seq)))
        ]

    -- The null version that PutObject replaces: what it returns, and its record deleted.
    pub drop_null : Txn → Bytes → Bytes → Option Object × Txn
    drop_null tx bucket key = elim (get tx (null_key bucket key)) [
      | none ↦ (none, tx)
      | some vk ↦ elim (get tx (object_prefix bucket key ++ vk)) [
        | none ↦ (none, tx)
        | some b ↦ (objects.decode b, delete tx (object_prefix bucket key ++ vk))
      ]
    ]

    -- PutObject(tx, o)
    unfoldable pub put_object : Txn → Object → Option Object × Txn
    put_object tx o =
        if is_null o
        then (
          (drop_null tx o.bucket o.key).0,
          put (put (drop_null tx o.bucket o.key).1 (null_key o.bucket o.key) (ver_key o.seq))
              (object_key o.bucket o.key o.seq) (objects.encode o),
        )
        else (none, put tx (object_key o.bucket o.key o.seq) (objects.encode o))

  -- DeleteVersion(tx, o); bbolt deletes a missing key without an error
  unfoldable pub delete_version : Txn → Object → Txn
  delete_version tx o =
      if is_null o
      then delete (delete tx (null_key o.bucket o.key)) (object_key o.bucket o.key o.seq)
      else delete tx (object_key o.bucket o.key o.seq)

  module _ (uploads : Codec Upload) where
    -- PutUpload(tx, u)
    pub put_upload : Txn → Upload → Txn
    put_upload tx u =
        put (put tx (upload_key u.bucket u.key u.upload_id) (uploads.encode u))
          (upload_id_key u.bucket u.upload_id) u.key

    -- GetUpload(tx, bucket, key, uploadID)
    pub get_upload : Txn → Bytes → Bytes → Bytes → Result Upload
    unfolding decoded
    get_upload tx bucket key upload_id = elim (get tx (upload_id_key bucket upload_id)) [
      | none ↦ failed not_found
      | some k ↦
          if not (is_nil key) && not (eq_bytes k key)
          then failed not_found
          else decoded uploads (get tx (upload_key bucket k upload_id))
    ]
