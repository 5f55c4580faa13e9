-- ===== src/Service/Put.antt =====
-- internal/object/put.go: `PutObject` around the body: the attributes, the owner, and the transaction that
-- stores the version. Encrypting, writing and hashing the body is an argument; blobs are deleted and the
-- event is sent behind the transaction.
pub mod Held
pub mod Readable
use opens.Prelude.{
  ℕ, ◌+◌, ℤ, pos, lt_int, Bool, true, false, not, ◌&&◌, ◌||◌, Option, none, some, List, [], ◌∷◌,
  Bytes, Map, codes, eq_bytes, is_nil, length, any, ltb, if◌then◌else◌, fail_if, ◌⊳◌,
}
use opens.Kv.{Engine}
use opens.Meta.Keys.{null_version_id}
use opens.Iam.Types.{AclGrant, Acl}
use opens.Meta.Types.{Time, Tag, Part, Checksum, Sse, Retention, Bucket, Object}
use opens.Meta.Store.{Codec, not_found, ok, failed, get_bucket, get_version, put_object}
use opens.Meta.Latest.{get_latest}
use opens.Service.Lock.{Go, DeleteError, valid_object_key, check_locked, bucket_expected}
use opens.Service.Conditions.{
  Conditions, ConditionError, check_write_conditions, version_id_for, same_bucket, get_live_bucket,
}
use opens.Service.Update.{UpdateError, validate_tags}
use opens.Service.Delete.{Context}

pub record ObjectAttrs : Type 0 where
  pub content_type : Bytes
  pub content_encoding : Bytes
  pub content_disposition : Bytes
  pub content_language : Bytes
  pub cache_control : Bytes
  pub expires : Bytes
  pub website_redirect : Bytes
  pub user_meta : Map Bytes
  pub tags : List Tag
  pub storage_class : Bytes
  pub acl : Option Acl
  pub retention : Option Retention
  pub legal_hold : Bool
  pub legal_hold_set : Bool

pub data PutError : Type 0 where
  invalid_key : DeleteError → PutError
  no_such_bucket undecodable_record : PutError
  metadata_too_large too_many_tags invalid_storage_class no_lock_configuration malformed_xml
        invalid_retention_date :
      PutError
  tags_refused : UpdateError → PutError
  body_refused : PutError
  condition : ConditionError → PutError
  locked : DeleteError → PutError

-- PutInput, less what resolveSSE, writeBlob and verifyDigests read of it.
pub record PutInput : Type 0 where
  pub bucket : Bytes
  pub key : Bytes
  pub attrs : ObjectAttrs
  pub conditions : Conditions
  pub event : Bytes

-- What resolveSSE, writeBlob and verifyDigests return: the part, the checksum and the encryption.
pub record Written : Type 0 where
  pub part : Part
  pub checksum : Option Checksum
  pub sse : Option Sse

pub record Stored (Txn : Type 0) : Type 0 where
  pub tx : Txn
  pub object : Object
  pub replaced : Option Object
  pub event : Bytes

pub data Outcome (Txn : Type 0) : Type 0 where
  refused : PutError → Outcome Txn
  done : Stored Txn → Outcome Txn

-- grantsFullControl(acl, id)
pub grants_full_control : Option Acl → Bytes → Bool
grants_full_control none id = false
grants_full_control (some acl) id =
    any
      (λ (g : AclGrant).
        eq_bytes g.grantee_type (codes "CanonicalUser")
        && (eq_bytes g.grantee id && eq_bytes g.permission (codes "FULL_CONTROL")))
      acl.grants

-- storageClasses
abbrev pub storage_classes : List Bytes
storage_classes =
    codes "STANDARD"
    ∷ codes "REDUCED_REDUNDANCY"
    ∷ codes "STANDARD_IA"
    ∷ codes "ONEZONE_IA"
    ∷ codes "INTELLIGENT_TIERING"
    ∷ codes "GLACIER"
    ∷ codes "DEEP_ARCHIVE"
    ∷ codes "GLACIER_IR"
    ∷ codes "OUTPOSTS"
    ∷ codes "EXPRESS_ONEZONE"
    ∷ []

-- ValidStorageClass(sc)
pub valid_storage_class : Bytes → Bool
valid_storage_class sc = any (eq_bytes sc) storage_classes

-- The sum of the sizes of the user metadata.
pub metadata_size : Map Bytes → ℕ
metadata_size [] = 0
metadata_size ((k, v) ∷ m) = (length k + length v) + metadata_size m

-- The storage class, with its default.
abbrev pub class_of : ObjectAttrs → Bytes
class_of a = if is_nil a.storage_class then codes "STANDARD" else a.storage_class

-- The checks of validateAttrs at the time `now`.
pub attribute_checks : Time → Bucket → ObjectAttrs → Option PutError
attribute_checks now b a =
    fail_if (ltb 2048 (metadata_size a.user_meta)) metadata_too_large
    ⊳ (fail_if (ltb 10 (length a.tags)) too_many_tags
        ⊳ (elim (validate_tags a.tags) [ none ↦ none | some e ↦ some (tags_refused e) ]
            ⊳ (fail_if (not (valid_storage_class (class_of a))) invalid_storage_class
                ⊳ (fail_if
                      ((elim a.retention [ none ↦ false | some _ ↦ true ] || a.legal_hold_set)
                        && not b.object_lock_enabled)
                      no_lock_configuration
                    ⊳ elim a.retention [
                      | none ↦ none
                      | some r ↦
                          fail_if
                            (not (eq_bytes r.mode (codes "GOVERNANCE"))
                              && not (eq_bytes r.mode (codes "COMPLIANCE")))
                            malformed_xml
                          ⊳ fail_if (not (ltb now r.retain_until)) invalid_retention_date
                    ]))))

module _ (go : Go) (add_date : Time → ℤ → ℤ → Time) where
  -- The retention of a new version: the one that was asked for, or the default of the bucket, which
  -- `until.AddDate` counts in years and days.
  pub default_retention : Time → Bucket → Option Retention → Option Retention
  default_retention now b (some r) = some r
  default_retention now b none = if not b.object_lock_enabled then none else elim b.object_lock [
    | none ↦ none
    | some lock ↦ some (record {
      mode = lock.mode;
      retain_until =
          if lt_int (pos 0) lock.days
          then add_date now (pos 0) lock.days
          else add_date now lock.years (pos 0);
    })
  ]

  module _ (kv : Engine) (buckets : Codec Bucket) (objects : Codec Object) (c : Context) where
    open kv use {Txn}

    -- Whether the bucket owner gets the object by BucketOwnerPreferred.
    pub transferred : Bucket → ObjectAttrs → Bool
    unfolding grants_full_control
    transferred b a =
        eq_bytes b.ownership (codes "BucketOwnerPreferred")
        && (not (eq_bytes b.owner c.actor.canonical_id) && grants_full_control a.acl b.owner)

    pub owned_by_bucket : Bucket → ObjectAttrs → Bool
    unfolding transferred
    owned_by_bucket b a =
        (eq_bytes b.ownership (codes "BucketOwnerEnforced") && not (is_nil b.owner))
        || transferred b a

    -- The version record that is to be stored, with its version ID.
    pub new_object : PutInput → Bucket → Written → Bytes → Object
    unfolding owned_by_bucket default_retention transferred
    new_object i b w version_id =
        let own = owned_by_bucket b i.attrs in
        record {
          bucket = i.bucket;
          key = i.key;
          version_id = version_id;
          seq = c.seq;
          delete_marker = false;
          size = w.part.size;
          etag = w.part.etag;
          mod_time = c.now;
          owner = if own then b.owner else c.actor.canonical_id;
          owner_display = if own then b.owner_display else c.actor.display_name;
          content_type = i.attrs.content_type;
          content_encoding = i.attrs.content_encoding;
          content_disposition = i.attrs.content_disposition;
          content_language = i.attrs.content_language;
          cache_control = i.attrs.cache_control;
          expires = i.attrs.expires;
          website_redirect = i.attrs.website_redirect;
          user_meta = i.attrs.user_meta;
          tags = i.attrs.tags;
          storage_class = class_of i.attrs;
          acl =
              if transferred b i.attrs
              then elim i.attrs.acl [
                | none ↦ none
                | some acl ↦ some (record acl { owner = b.owner })
              ]
              else i.attrs.acl;
          parts =
              record w.part {
                number = pos 1;
                checksum = elim w.checksum [ none ↦ w.part.checksum | some cs ↦ cs.value ];
              }
              ∷ [];
          checksum = w.checksum;
          sse = w.sse;
          retention = default_retention c.now b i.attrs.retention;
          legal_hold = i.attrs.legal_hold;
          restore_expiry = none;
        }

    pub after_checks : Option PutError → Outcome Txn → Outcome Txn
    after_checks (some e) next = refused e
    after_checks none next = next

    -- Whether the null version that the write replaces is locked.
    pub replaced_lock : Txn → Object → Option PutError
    replaced_lock tx o =
        if eq_bytes o.version_id null_version_id
        then elim (get_version kv objects tx o.bucket o.key null_version_id) [
          | failed _ ↦ none
          | ok cur ↦ elim (check_locked c.now cur false) [ none ↦ none | some e ↦ some (locked e) ]
        ]
        else none

    -- The conditions of the request, and the lock of what is replaced.
    pub write_checks : Txn → PutInput → Object → Option PutError
    unfolding replaced_lock
    write_checks tx i o =
        elim (check_write_conditions go (get_latest kv objects tx i.bucket i.key) i.conditions) [
          | none ↦ none
          | some e ↦ some (condition e)
        ]
        ⊳ replaced_lock tx o

    pub committed : Txn → PutInput → Object → Outcome Txn
    committed tx i o = done (record {
      tx = (put_object kv objects tx o).1;
      object = o;
      replaced = (put_object kv objects tx o).0;
      event = if is_nil i.event then codes "s3:ObjectCreated:Put" else i.event;
    })

    -- The transaction, on a version that has no ID yet; `seen` is the bucket that was read before.
    pub store_object : Txn → PutInput → Bucket → Object → Outcome Txn
    unfolding after_checks write_checks committed
    store_object tx i seen o = elim (get_bucket kv buckets tx i.bucket) [
      | failed e ↦ refused (elim e [ not_found ↦ no_such_bucket | _ ↦ undecodable_record ])
      | ok b ↦
          if not (same_bucket b seen) || not (bucket_expected c.expected b)
          then refused no_such_bucket
          else let o' : Object = record o { version_id = version_id_for b c.seq c.random } in
            after_checks (write_checks tx i o') (committed tx i o')
    ]

    pub key_checks : PutInput → Option PutError
    key_checks i = elim (valid_object_key go i.key) [ none ↦ none | some e ↦ some (invalid_key e) ]

    -- PutObject(actor, in): the bucket is read in a transaction `view` of its own; `written` is none where
    -- the body is refused.
    pub put_object_service : Txn → Txn → PutInput → (Bucket → Option Written) → Outcome Txn
    unfolding after_checks key_checks store_object
    put_object_service view tx i written =
        after_checks (key_checks i) (elim (get_live_bucket kv buckets view i.bucket) [
          | failed e ↦ refused (elim e [ not_found ↦ no_such_bucket | _ ↦ undecodable_record ])
          | ok b ↦ after_checks (attribute_checks c.now b i.attrs) (elim (written b) [
            | none ↦ refused body_refused
            | some w ↦ store_object tx i b (new_object i b w [])
          ])
        ])
