-- ===== src/Service/Update.antt =====
-- internal/object/tagging.go: changes of a stored version: tags, ACL, retention and legal hold.
pub mod Own
pub mod Tags
pub mod Held
use opens.Prelude.{
  Bool, true, false, not, ◌&&◌, ◌||◌, Option, none, some, ◌⊎◌, inl, inr, List, [], ◌∷◌, Bytes,
  codes, eq_bytes, is_nil, length, any, ltb, if◌then◌else◌, fail_if, ◌⊳◌,
}
use opens.Kv.{Engine}
use opens.Meta.Keys.{object_key}
use opens.Iam.Types.{Acl}
use opens.Meta.Types.{Time, Tag, Retention, Bucket, Object}
use opens.Meta.Store.{Codec, StoreError, not_found, exists, undecodable, ok, failed, get_version}
use opens.Meta.Latest.{get_latest}
use opens.Service.Lock.{Go, object_expected}
use opens.Service.Conditions.{get_live_bucket}
use opens.Service.Delete.{Context, live_bucket}

pub data UpdateError : Type 0 where
  no_such_bucket no_such_version no_such_key changed undecodable_record method_not_allowed :
      UpdateError
  no_lock_configuration malformed_xml access_denied invalid_tag duplicate_tag too_many_tags :
      UpdateError

-- The transaction behind an update, the version as it is now, and the name of the event, if one is sent.
pub record Updated (Txn : Type 0) : Type 0 where
  pub tx : Txn
  pub object : Object
  pub event : Option Bytes

-- An error rolls the transaction back.
pub data Outcome (Txn : Type 0) : Type 0 where
  refused : UpdateError → Outcome Txn
  done : Updated Txn → Outcome Txn

-- What `fn` makes of a version.
abbrev pub Change : Type 0
Change = Object → UpdateError ⊎ Object

-- ValidateTags(tags), with the keys that were seen
pub validate_tags_from : List Bytes → List Tag → Option UpdateError
validate_tags_from seen [] = none
validate_tags_from seen (t ∷ tags) =
    fail_if (is_nil t.key || (ltb 128 (length t.key) || ltb 256 (length t.value))) invalid_tag
    ⊳ (fail_if (any (eq_bytes t.key) seen) duplicate_tag ⊳ validate_tags_from (t.key ∷ seen) tags)

unfoldable pub validate_tags : List Tag → Option UpdateError
unfolding validate_tags_from
validate_tags tags = validate_tags_from [] tags

-- Whether a retention takes something away from the one that is there.
pub shortening : Option Retention → Retention → Bool
shortening none cur = true
shortening (some r) cur = ltb r.retain_until cur.retain_until || not (eq_bytes r.mode cur.mode)

-- The check of PutObjectRetention at the time `now`, and the change.
pub change_retention : Time → Option Retention → Bool → Change
unfolding shortening
change_retention now r bypass_governance o = elim o.retention [
  | none ↦ inr (record o { retention = r })
  | some cur ↦
      if ltb now cur.retain_until
        && (shortening r cur && (eq_bytes cur.mode (codes "COMPLIANCE") || not bypass_governance))
      then inl access_denied
      else inr (record o { retention = r })
]

-- The version that is updated: `request` names it, or it is the latest one.
pub record VersionName : Type 0 where
  pub bucket : Bytes
  pub key : Bytes
  pub version_id : Bytes

module _ (go : Go) (kv : Engine) (buckets : Codec Bucket) (objects : Codec Object)
    (c : Context) where
  open kv use {Txn}

  pub store_error : StoreError → UpdateError → UpdateError
  store_error not_found e = e
  store_error exists e = undecodable_record
  store_error undecodable e = undecodable_record

  -- updateVersion, behind the read of the version
  pub update_found : Txn → VersionName → Option Bytes → Change → Object → Outcome Txn
  update_found tx n event fn o =
      if not (object_expected c.expected o)
      then refused changed
      else if o.delete_marker
      then refused method_not_allowed
      else elim (fn o) [
        | inl e ↦ refused e
        | inr o' ↦ done (record {
          tx = kv.put tx (object_key n.bucket n.key o'.seq) (objects.encode o');
          object = o';
          event = event;
        })
      ]

  -- updateVersion(bucket, key, versionID, fn)
  pub update_version : Txn → VersionName → Option Bytes → Change → Outcome Txn
  unfolding update_found store_error
  update_version tx n event fn = elim (live_bucket go kv buckets objects c tx n.bucket) [
    | failed e ↦ refused (store_error e no_such_bucket)
    | ok _ ↦
        if is_nil n.version_id
        then elim (get_latest kv objects tx n.bucket n.key) [
          | failed e ↦ refused (store_error e no_such_key)
          | ok o ↦ update_found tx n event fn o
        ]
        else elim (get_version kv objects tx n.bucket n.key n.version_id) [
          | failed e ↦ refused (store_error e no_such_version)
          | ok o ↦ update_found tx n event fn o
        ]
  ]

  pub after_checks : Option UpdateError → Outcome Txn → Outcome Txn
  after_checks (some e) next = refused e
  after_checks none next = next

  -- PutObjectTagging, DeleteObjectTagging, PutObjectACL
  pub put_object_tagging : Txn → VersionName → List Tag → Outcome Txn
  unfolding after_checks update_version
  put_object_tagging tx n tags =
      after_checks (fail_if (ltb 10 (length tags)) too_many_tags ⊳ validate_tags tags) (
        update_version tx n (some (codes "s3:ObjectTagging:Put"))
          (λ o. inr (record o { tags = tags })))

  pub delete_object_tagging : Txn → VersionName → Outcome Txn
  unfolding update_version
  delete_object_tagging tx n =
      update_version tx n (some (codes "s3:ObjectTagging:Delete"))
        (λ o. inr (record o { tags = [] }))

  pub put_object_acl : Txn → VersionName → Option Acl → Outcome Txn
  unfolding update_version
  put_object_acl tx n acl =
      update_version tx n (some (codes "s3:ObjectAcl:Put")) (λ o. inr (record o { acl = acl }))

  -- The bucket must have object lock; it is read in a transaction `view` of its own.
  pub lock_enabled : Txn → Bytes → Option UpdateError
  unfolding store_error
  lock_enabled view bucket = elim (get_live_bucket kv buckets view bucket) [
    | failed e ↦ some (store_error e no_such_bucket)
    | ok b ↦ fail_if (not b.object_lock_enabled) no_lock_configuration
  ]

  -- PutObjectRetention(bucket, key, versionID, r, bypassGovernance)
  pub put_object_retention : Txn → Txn → VersionName → Option Retention → Bool → Outcome Txn
  unfolding after_checks update_version lock_enabled
  put_object_retention view tx n r bypass_governance =
      after_checks
        (lock_enabled view n.bucket
          ⊳ fail_if
              (elim r [
                | none ↦ false
                | some new ↦
                    not (eq_bytes new.mode (codes "GOVERNANCE"))
                    && not (eq_bytes new.mode (codes "COMPLIANCE"))
              ])
              malformed_xml)
        (update_version tx n (some (codes "s3:ObjectRetention:Put"))
          (change_retention c.now r bypass_governance))

  -- PutObjectLegalHold(bucket, key, versionID, on)
  pub put_object_legal_hold : Txn → Txn → VersionName → Bool → Outcome Txn
  unfolding after_checks update_version lock_enabled
  put_object_legal_hold view tx n on =
      after_checks (lock_enabled view n.bucket)
        (update_version tx n none (λ o. inr (record o { legal_hold = on })))
