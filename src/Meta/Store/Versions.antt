-- ===== src/Meta/Store/Versions.antt =====
-- What is written is read back, and what is deleted is gone: buckets, versions and uploads.
use opens.Prelude.{
  ◌≡◌, ◌≢◌, ◌⊎◌, refl, sym, ap, ◌∙◌, inl, inr, false, not, ◌&&◌, Option, none, some, ◌++◌, Bytes,
  codes, eq_bytes, eq_bytes_refl, eq_bytes_sound, is_nil, if◌then◌else◌, arith, Bool-cases,
  Option-cases, take,
}
use opens.Kv.{Engine}
use opens.Kv.Reads.{get-put_same, get-put_other, get-delete_same, get-delete_other}
use opens.Meta.Keys.{
  null_version_id, ver_key, bucket_key, object_prefix, object_key, null_key, upload_key,
  upload_id_key, seq_from_version_id,
}
use opens.Meta.Keys.Laws.{object_key-prefix, object_key-null_key}
use opens.Meta.Types.{Bucket, Object, Upload}
use opens.Meta.Store.{
  Codec, not_found, exists, Result, ok, failed, decoded, is_null, get_bucket, create_bucket,
  of_version, get_version, drop_null, put_object, delete_version, put_upload, get_upload,
}

-- The version ID is "null", or the sequence number can be read from it.
abbrev pub Consistent : Object → Type 0
Consistent o = (o.version_id ≡ null_version_id) ⊎ (seq_from_version_id o.version_id ≡ some o.seq)

pub decoded-encode :
    {A : Type 0} (c : Codec A) (b : Option Bytes) (x : A)
    → b ≡ some (c.encode x)
    → decoded c b ≡ ok x
unfolding decoded
decoded-encode c b x h = ground (arith, c.decode_encode x)

of_version-same : (r : Result Object) (o : Object) → r ≡ ok o → of_version o.version_id r ≡ ok o
unfolding of_version
of_version-same r o h = ground (arith, eq_bytes_refl o.version_id)

nothing_decoded : {A : Type 0} (c : Codec A) → decoded c none ≡ failed not_found
unfolding decoded
nothing_decoded c = refl

nothing_of_version :
    (version_id : Bytes) → of_version version_id (failed not_found) ≡ failed not_found
unfolding of_version
nothing_of_version version_id = refl

null_key-object_key : (o : Object) → null_key o.bucket o.key ≢ object_key o.bucket o.key o.seq
null_key-object_key o e = object_key-null_key o.bucket o.bucket o.key o.key o.seq (sym e)

upload_key-upload_id_key :
    (u : Upload) → upload_key u.bucket u.key u.upload_id ≢ upload_id_key u.bucket u.upload_id
unfolding upload_key upload_id_key eq_bytes
upload_key-upload_id_key u e = ground (arith, ap (λ s. eq_bytes (take 2 s) (codes "u/")) e)

numbered :
    (o : Object)
    → eq_bytes o.version_id null_version_id ≡ false
    → Consistent o
    → seq_from_version_id o.version_id ≡ some o.seq
numbered o v (inr s) = s
numbered o v (inl e) =
    ground (arith, eq_bytes_refl null_version_id, ap (λ s. eq_bytes s null_version_id) e)

module _ (kv : Engine) where
  -- Creating a bucket fails as it exists, or the bucket is found and cannot be created a second time.
  pub get_bucket-create_bucket :
      (buckets : Codec Bucket) (tx : kv.Txn) (bk : Bucket)
      → (create_bucket kv buckets tx bk ≡ failed exists)
        ⊎ ((after : kv.Txn) × (create_bucket kv buckets tx bk ≡ ok after)
            × (get_bucket kv buckets after bk.name ≡ ok bk)
            × ((other : Bucket)
                → other.name ≡ bk.name
                → create_bucket kv buckets after other ≡ failed exists))
  unfolding create_bucket get_bucket
  get_bucket-create_bucket buckets tx bk =
      let k = bucket_key bk.name in
      let after = kv.put tx k (buckets.encode bk) in
      let there : kv.get after k ≡ some (buckets.encode bk) =
        get-put_same kv tx k (buckets.encode bk) in
      elim (Option-cases (kv.get tx k)) [
        | inr (b, e) ↦ inl (ground arith)
        | inl e ↦ inr (
          after,
          ground arith,
          decoded-encode buckets _ bk there,
          λ other n. ground (arith, ap (λ m. kv.get after (bucket_key m)) n),
        )
      ]

  module _ (objects : Codec Object) where
    read_null :
        (tx : kv.Txn) (o : Object)
        → o.version_id ≡ null_version_id
        → kv.get tx (null_key o.bucket o.key) ≡ some (ver_key o.seq)
        → kv.get tx (object_key o.bucket o.key o.seq) ≡ some (objects.encode o)
        → get_version kv objects tx o.bucket o.key o.version_id ≡ ok o
    unfolding get_version
    read_null tx o v p r =
        let found =
          decoded-encode objects (kv.get tx (object_prefix o.bucket o.key ++ ver_key o.seq)) o
            (rw (← object_key-prefix o.bucket o.key o.seq) r) in
        ground (arith, found, eq_bytes_refl null_version_id, ap (λ s. eq_bytes s null_version_id) v)

    read_numbered :
        (tx : kv.Txn) (o : Object)
        → eq_bytes o.version_id null_version_id ≡ false
        → seq_from_version_id o.version_id ≡ some o.seq
        → kv.get tx (object_key o.bucket o.key o.seq) ≡ some (objects.encode o)
        → get_version kv objects tx o.bucket o.key o.version_id ≡ ok o
    unfolding get_version
    read_numbered tx o v s r = ground (
      arith,
      of_version-same (decoded objects (kv.get tx (object_key o.bucket o.key o.seq))) o
          (decoded-encode objects _ o r),
    )

    -- A version that has been put is found under its version ID, which is "null" or holds its number.
    pub get_version-put_object :
        (tx : kv.Txn) (o : Object)
        → Consistent o
        → get_version kv objects (put_object kv objects tx o).1 o.bucket o.key o.version_id ≡ ok o
    unfolding put_object is_null
    get_version-put_object tx o c =
        let t1 = (drop_null kv objects tx o.bucket o.key).1 in
        let nk = null_key o.bucket o.key in
        let k = object_key o.bucket o.key o.seq in
        let pointed = kv.put t1 nk (ver_key o.seq) in
        elim (Bool-cases (eq_bytes o.version_id null_version_id)) [
          | inl v ↦ rw v (
              read_null (kv.put pointed k (objects.encode o)) o
                (eq_bytes_sound o.version_id null_version_id v)
                (get-put_other kv pointed k (objects.encode o) nk (null_key-object_key o)
                  ∙ get-put_same kv t1 nk (ver_key o.seq))
                (get-put_same kv pointed k (objects.encode o)))
          | inr v ↦ rw v (
              read_numbered (kv.put tx k (objects.encode o)) o v (numbered o v c)
                (get-put_same kv tx k (objects.encode o)))
        ]

    -- A version that has been deleted is not found any more, if its ID is "null" or holds its number.
    pub get_version-delete_version :
        (tx : kv.Txn) (o : Object)
        → Consistent o
        → get_version kv objects (delete_version kv tx o) o.bucket o.key o.version_id
          ≡ failed not_found
    unfolding get_version delete_version is_null
    get_version-delete_version tx o c =
        let nk = null_key o.bucket o.key in
        let k = object_key o.bucket o.key o.seq in
        elim (Bool-cases (eq_bytes o.version_id null_version_id)) [
          | inl v ↦ ground (
            arith,
            get-delete_other kv (kv.delete tx nk) k nk (null_key-object_key o),
            get-delete_same kv tx nk,
          )
          | inr v ↦ ground (
            arith,
            numbered o v c,
            get-delete_same kv tx k,
            nothing_decoded objects,
            nothing_of_version o.version_id,
          )
        ]

  -- An upload that has been put is found by its ID, with its key or with no key, and not with another.
  pub get_upload-put_upload :
      (uploads : Codec Upload) (tx : kv.Txn) (u : Upload) (key : Bytes)
      → get_upload kv uploads (put_upload kv uploads tx u) u.bucket key u.upload_id
        ≡ (if not (is_nil key) && not (eq_bytes u.key key) then failed not_found else ok u)
  unfolding get_upload put_upload
  get_upload-put_upload uploads tx u key =
      let uk = upload_key u.bucket u.key u.upload_id in
      let ik = upload_id_key u.bucket u.upload_id in
      let written = kv.put tx uk (uploads.encode u) in
      let index = get-put_same kv written ik u.key in
      let record_there =
        get-put_other kv written ik u.key uk (upload_key-upload_id_key u)
        ∙ get-put_same kv tx uk (uploads.encode u) in
      ground (arith, index, decoded-encode uploads _ u record_there)
