-- ===== src/Service/Delete.antt =====
-- internal/object/delete.go: `DeleteObject`. The blobs of what was removed are deleted and the event is
-- sent behind the transaction.
pub mod Records
pub mod Kept
pub mod Paths
pub mod Locked
pub mod Held
pub mod Versioned
use opens.Prelude.{
  ℕ, ◌≡◌, Bool, true, false, not, ◌&&◌, ◌||◌, Option, none, some, List, [], ◌∷◌, Bytes, codes,
  eq_bytes, is_nil, pos, ◌==◌, if◌then◌else◌, fail_if, ◌⊳◌,
}
use opens.Kv.{Engine}
use opens.Meta.Keys.{null_version_id, new_version_id, seq_from_version_id}
use opens.Meta.Types.{Time, Bucket, Part, Object}
use opens.Meta.Store.{
  Codec, StoreError, not_found, exists, undecodable, Result, ok, failed, get_bucket, get_version,
  put_object, delete_version,
}
use opens.Meta.Latest.{get_latest}
use opens.Service.Lock.{
  Go, DeleteError, no_such_bucket, invalid_version, precondition_failed, no_such_key, changed,
  undecodable_record, valid_object_key, check_locked, etag_matches, Expectation, bucket_expected,
  object_expected,
}

pub record Actor : Type 0 where
  pub canonical_id : Bytes
  pub display_name : Bytes

-- DeleteInput; `if_seq` is 0 for no condition.
pub record DeleteInput : Type 0 where
  pub bucket : Bytes
  pub key : Bytes
  pub version_id : Bytes
  pub bypass_governance : Bool
  pub if_match : Bytes
  pub if_seq : ℕ

-- What the call is given from elsewhere: the clock, the next sequence number, sixteen random
-- digits for a version ID, the caller, and what the request was authorised against.
pub record Context : Type 0 where
  pub now : Time
  pub seq : ℕ
  pub random : Bytes
  pub actor : Actor
  pub expected : Expectation

-- The committed transaction, the DeleteResult, the parts that were removed, and the event.
pub record Deleted (Txn : Type 0) : Type 0 where
  pub tx : Txn
  pub delete_marker : Bool
  pub version_id : Bytes
  pub removed : List Part
  pub event : Option (Bytes × Object)

-- An error rolls the transaction back.
pub data Outcome (Txn : Type 0) : Type 0 where
  refused : DeleteError → Outcome Txn
  done : Deleted Txn → Outcome Txn

pub after_checks : {Txn : Type 0} → Option DeleteError → Outcome Txn → Outcome Txn
after_checks (some e) next = refused e
after_checks none next = next

-- The record of a delete marker that DeleteObject writes.
pub marker : Context → DeleteInput → Bytes → Object
marker c i version_id = record {
  bucket = i.bucket;
  key = i.key;
  version_id = version_id;
  seq = c.seq;
  delete_marker = true;
  size = pos 0;
  etag = [];
  mod_time = c.now;
  owner = c.actor.canonical_id;
  owner_display = c.actor.display_name;
  content_type = [];
  content_encoding = [];
  content_disposition = [];
  content_language = [];
  cache_control = [];
  expires = [];
  website_redirect = [];
  user_meta = [];
  tags = [];
  storage_class = [];
  acl = none;
  parts = [];
  checksum = none;
  sse = none;
  retention = none;
  legal_hold = false;
  restore_expiry = none;
}

module _ (go : Go) (kv : Engine) (buckets : Codec Bucket) (objects : Codec Object)
    (c : Context) where
  open kv use {Txn}

  -- getLiveBucket and liveBucket, with `not_found` where the bucket is being deleted or is another one
  unfoldable pub live_bucket : Txn → Bytes → Result Bucket
  live_bucket tx name = elim (get_bucket kv buckets tx name) [
    | failed e ↦ failed e
    | ok b ↦ if b.deleting || not (bucket_expected c.expected b) then failed not_found else ok b
  ]

  pub unchanged : Txn → Outcome Txn
  unchanged tx =
      done (record { tx = tx; delete_marker = false; version_id = []; removed = []; event = none })

  removed_event : Bytes
  removed_event = codes "s3:ObjectRemoved:Delete"

  -- The branch for a version ID, behind GetVersion.
  pub version_checks : DeleteInput → Object → Option DeleteError
  version_checks i o =
      fail_if (not (is_nil i.if_match) && not (etag_matches go i.if_match o.etag))
        precondition_failed
      ⊳ (fail_if (not (i.if_seq == 0) && not (o.seq == i.if_seq)) precondition_failed
          ⊳ (fail_if (not (object_expected c.expected o)) changed
              ⊳ check_locked c.now o i.bypass_governance))

  pub delete_found : Txn → DeleteInput → Object → Outcome Txn
  unfolding after_checks version_checks removed_event
  delete_found tx i o = after_checks (version_checks i o) (
      done (record {
        tx = delete_version kv tx o;
        delete_marker = o.delete_marker;
        version_id = o.version_id;
        removed = o.parts;
        event = some (removed_event, o);
      }))

  pub missing_version : Txn → DeleteInput → StoreError → Outcome Txn
  unfolding unchanged
  missing_version tx i not_found =
      if eq_bytes i.version_id null_version_id
      then unchanged tx
      else elim (seq_from_version_id i.version_id) [
        | none ↦ refused invalid_version
        | some _ ↦ unchanged tx
      ]
  missing_version tx i exists = refused undecodable_record
  missing_version tx i undecodable = refused undecodable_record

  pub delete_named : Txn → DeleteInput → Outcome Txn
  unfolding missing_version
  delete_named tx i = elim (get_version kv objects tx i.bucket i.key i.version_id) [
    | failed e ↦ missing_version tx i e
    | ok o ↦ delete_found tx i o
  ]

  -- The conditions on the current version; `none` where there is none.
  pub current_checks : DeleteInput → Option Object → Option DeleteError
  current_checks i none =
      fail_if (not (is_nil i.if_match)) no_such_key
      ⊳ fail_if (not (i.if_seq == 0)) precondition_failed
  current_checks i (some cur) =
      fail_if (not (is_nil i.if_match) && cur.delete_marker) no_such_key
      ⊳ (fail_if (not (is_nil i.if_match) && not (etag_matches go i.if_match cur.etag))
            precondition_failed
          ⊳ fail_if (not (i.if_seq == 0) && not (cur.seq == i.if_seq)) precondition_failed)

  pub with_marker : Txn → Object → List Part → Outcome Txn
  with_marker tx dm removed = done (record {
    tx = (put_object kv objects tx dm).1;
    delete_marker = true;
    version_id = dm.version_id;
    removed = removed;
    event = some (codes "s3:ObjectRemoved:DeleteMarkerCreated", dm);
  })

  -- The case "Enabled": a delete marker, even if the key does not exist.
  pub insert_marker : Txn → DeleteInput → Outcome Txn
  unfolding with_marker
  insert_marker tx i = with_marker tx (marker c i (new_version_id c.seq c.random)) []

  -- The case "Suspended": a null delete marker in place of the null version.
  pub replace_null : Txn → DeleteInput → Outcome Txn
  unfolding with_marker after_checks
  replace_null tx i = elim (get_version kv objects tx i.bucket i.key null_version_id) [
    | failed _ ↦ with_marker tx (marker c i null_version_id) []
    | ok nv ↦
        after_checks (check_locked c.now nv i.bypass_governance)
          (with_marker tx (marker c i null_version_id) nv.parts)
  ]

  -- The default case: the current version is removed.
  pub remove_current : Txn → DeleteInput → Option Object → Outcome Txn
  unfolding after_checks unchanged removed_event
  remove_current tx i none = unchanged tx
  remove_current tx i (some cur) = after_checks (check_locked c.now cur i.bypass_governance) (
      done (record {
        tx = delete_version kv tx cur;
        delete_marker = false;
        version_id = [];
        removed = cur.parts;
        event = some (removed_event, cur);
      }))

  pub by_versioning : Txn → DeleteInput → Bucket → Option Object → Outcome Txn
  unfolding after_checks current_checks
  by_versioning tx i b cur = after_checks (current_checks i cur) (
      if eq_bytes b.versioning (codes "Enabled")
      then insert_marker tx i
      else if eq_bytes b.versioning (codes "Suspended")
      then replace_null tx i
      else remove_current tx i cur)

  pub delete_current : Txn → DeleteInput → Bucket → Outcome Txn
  delete_current tx i b = elim (get_latest kv objects tx i.bucket i.key) [
    | ok cur ↦ by_versioning tx i b (some cur)
    | failed e ↦ elim e [ not_found ↦ by_versioning tx i b none | _ ↦ refused undecodable_record ]
  ]

  -- DeleteObject(actor, in)
  pub delete_object : Txn → DeleteInput → Outcome Txn
  unfolding after_checks
  delete_object tx i = after_checks (valid_object_key go i.key) (elim (live_bucket tx i.bucket) [
    | failed e ↦ elim e [ not_found ↦ refused no_such_bucket | _ ↦ refused undecodable_record ]
    | ok b ↦ if not (is_nil i.version_id) then delete_named tx i else delete_current tx i b
  ])
