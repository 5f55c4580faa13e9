-- ===== src/Service/Uploads/Create.antt =====
-- internal/object/multipart.go: `CreateUpload`.
use opens.Prelude.{
  ℤ, Bool, not, ◌&&◌, ◌||◌, Option, none, some, [], ◌∷◌, Bytes, codes, eq_bytes, is_nil, any,
  if◌then◌else◌, fail_if, ◌⊳◌,
}
use opens.Kv.{Engine}
use opens.Meta.Types.{Time, Sse, Bucket, Object, Upload}
use opens.Meta.Store.{Codec, failed, ok, put_upload}
use opens.Service.Lock.{Go, valid_object_key}
use opens.Service.Conditions.{get_live_bucket}
use opens.Service.Delete.{Context}
use opens.Service.Put.{
  ObjectAttrs, class_of, attribute_checks, default_retention, transferred, owned_by_bucket,
}
use opens.Service.Assemble.{
  Digests, MultipartError, invalid_key, attributes, unsupported_checksum, full_object_unsupported,
  body_refused, Assembly, refused, built,
}
use opens.Service.Uploads.{bucket_error, checked, live_bucket_error}

pub record CreateUploadInput : Type 0 where
  pub bucket : Bytes
  pub key : Bytes
  pub attrs : ObjectAttrs
  pub checksum_algorithm : Bytes
  pub checksum_type : Bytes

module _ (d : Digests) where
  -- checksum.SupportsFullObjectMultipart(alg)
  pub supports_full_object_multipart : Bytes → Bool
  supports_full_object_multipart alg =
      any (eq_bytes (d.normalize alg)) (codes "CRC32" ∷ codes "CRC32C" ∷ codes "CRC64NVME" ∷ [])

  -- The checksum type, with its default for the algorithm.
  pub checksum_type_for : Bytes → Bytes → Bytes
  checksum_type_for alg type =
      if is_nil alg || not (is_nil type)
      then type
      else if eq_bytes alg (codes "CRC64NVME")
      then codes "FULL_OBJECT"
      else codes "COMPOSITE"

  pub checksum_checks : CreateUploadInput → Option MultipartError
  unfolding supports_full_object_multipart checksum_type_for
  checksum_checks i =
      let alg = d.normalize i.checksum_algorithm in
      fail_if (not (is_nil i.checksum_algorithm) && is_nil alg) unsupported_checksum
      ⊳ fail_if
          (not (is_nil alg)
            && (eq_bytes (checksum_type_for alg i.checksum_type) (codes "FULL_OBJECT")
                && not (supports_full_object_multipart alg)))
          full_object_unsupported

  module _ (go : Go) (add_date : Time → ℤ → ℤ → Time) (kv : Engine) (buckets : Codec Bucket)
      (objects : Codec Object) (uploads : Codec Upload) (c : Context) where
    open kv use {Txn}

    -- The record of the upload; `id` is the random ID.
    pub new_upload : CreateUploadInput → Bucket → Option Sse → Bytes → Upload
    unfolding checksum_type_for
    new_upload i b sse id =
        let own = owned_by_bucket go add_date kv buckets objects c b i.attrs in
        let alg = d.normalize i.checksum_algorithm in
        record {
          bucket = i.bucket;
          key = i.key;
          upload_id = id;
          initiated = c.now;
          owner = if own then b.owner else c.actor.canonical_id;
          owner_display = if own then b.owner_display else c.actor.display_name;
          content_type = i.attrs.content_type;
          content_encoding = i.attrs.content_encoding;
          content_disposition = i.attrs.content_disposition;
          content_language = i.attrs.content_language;
          cache_control = i.attrs.cache_control;
          expires = i.attrs.expires;
          website_redirect = i.attrs.website_redirect;
          user_meta = i.attrs.user_meta;
          tags = i.attrs.tags;
          storage_class = class_of i.attrs;
          acl =
              if transferred go add_date kv buckets objects c b i.attrs
              then elim i.attrs.acl [
                | none ↦ none
                | some acl ↦ some (record acl { owner = b.owner })
              ]
              else i.attrs.acl;
          sse = sse;
          checksum_algorithm = alg;
          checksum_type = checksum_type_for alg i.checksum_type;
          retention = default_retention go add_date c.now b i.attrs.retention;
          legal_hold = i.attrs.legal_hold;
        }

    -- What is checked before the record is made: `encrypted` is what resolveSSE returns, none for an error.
    pub prepared :
        CreateUploadInput → Bucket → (Bucket → Option (Option Sse)) → Bytes → Assembly Upload
    unfolding checksum_checks new_upload
    prepared i b encrypted id =
        checked
          (elim (attribute_checks c.now b i.attrs) [ none ↦ none | some e ↦ some (attributes e) ])
          (elim (encrypted b) [
            | none ↦ refused body_refused
            | some sse ↦ checked (checksum_checks i) (built (new_upload i b sse id))
          ])

    -- CreateUpload(actor, in): the bucket is read in a transaction `view` of its own.
    pub create_upload :
        Txn
        → Txn
        → CreateUploadInput
        → (Bucket → Option (Option Sse))
        → Bytes
        → Assembly (Upload × Txn)
    unfolding prepared
    create_upload view tx i encrypted id =
        checked (elim (valid_object_key go i.key) [ none ↦ none | some e ↦ some (invalid_key e) ])
          (elim (get_live_bucket kv buckets view i.bucket) [
            | failed e ↦ refused (bucket_error e)
            | ok b ↦ elim (prepared i b encrypted id) [
              | refused e ↦ refused e
              | built u ↦
                  checked (live_bucket_error kv buckets c.expected tx i.bucket)
                    (built (u, put_upload kv uploads tx u))
            ]
          ])
