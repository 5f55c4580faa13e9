-- ===== src/Service/Conditions.antt =====
-- internal/object/service.go: the conditions of requests, the version IDs of writes, and the incarnation
-- of a bucket.
pub mod Numbered
use opens.Prelude.{
  ℕ, ◌-◌, ◌%◌, Bool, not, ◌&&◌, Option, none, some, Bytes, codes, eq_bytes, is_nil, ltb, ◌==◌,
  if◌then◌else◌, fail_if, ◌⊳◌,
}
use opens.Meta.Keys.{null_version_id, new_version_id}
use opens.Meta.Types.{Time, Bucket, Object}
use opens.Kv.{Engine}
use opens.Meta.Store.{Codec, not_found, Result, ok, failed, get_bucket}
use opens.Service.Lock.{Go, etag_matches}

-- Conditions; the zero time is no condition.
pub record Conditions : Type 0 where
  pub if_match : Bytes
  pub if_none_match : Bytes
  pub if_modified_since : Time
  pub if_unmodified_since : Time

pub data ConditionError : Type 0 where
  precondition_failed not_modified no_such_key : ConditionError

-- t.Truncate(time.Second)
abbrev pub seconds : Time → Time
seconds t = t - t % 1000000000

-- checkReadConditions(o, c)
pub check_read_conditions : Go → Object → Conditions → Option ConditionError
check_read_conditions go o c =
    fail_if (not (is_nil c.if_match) && not (etag_matches go c.if_match o.etag)) precondition_failed
    ⊳ (fail_if
          (not (c.if_unmodified_since == 0)
            && (ltb c.if_unmodified_since (seconds o.mod_time) && is_nil c.if_match))
          precondition_failed
        ⊳ (fail_if (not (is_nil c.if_none_match) && etag_matches go c.if_none_match o.etag)
              not_modified
            ⊳ fail_if
                (not (c.if_modified_since == 0)
                  && (is_nil c.if_none_match && not (ltb c.if_modified_since (seconds o.mod_time))))
                not_modified))

-- The current version, if it is an object and not a delete marker.
pub visible : Result Object → Option Object
visible (failed e) = none
visible (ok o) = if o.delete_marker then none else some o

-- checkWriteConditions, behind GetLatest
pub check_write_conditions : Go → Result Object → Conditions → Option ConditionError
unfolding visible
check_write_conditions go latest c = elim (visible latest) [
  | none ↦ fail_if (not (is_nil c.if_match)) no_such_key
  | some cur ↦
      fail_if (not (is_nil c.if_none_match) && etag_matches go c.if_none_match cur.etag)
        precondition_failed
      ⊳ fail_if (not (is_nil c.if_match) && not (etag_matches go c.if_match cur.etag))
          precondition_failed
]

-- versionIDFor(b, seq)
pub version_id_for : Bucket → ℕ → Bytes → Bytes
version_id_for b seq random =
    if eq_bytes b.versioning (codes "Enabled") then new_version_id seq random else null_version_id

-- sameBucket(cur, seen), for two buckets that are there
pub same_bucket : Bucket → Bucket → Bool
same_bucket cur seen = not cur.deleting && cur.created == seen.created

-- getLiveBucket(tx, name): a bucket that is being deleted is absent
pub get_live_bucket : (kv : Engine) → Codec Bucket → kv.Txn → Bytes → Result Bucket
get_live_bucket kv buckets tx name = elim (get_bucket kv buckets tx name) [
  | failed e ↦ failed e
  | ok b ↦ if b.deleting then failed not_found else ok b
]
