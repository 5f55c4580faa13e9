-- ===== src/Service/Delete/Versioned.antt =====
-- `DeleteObject` without a version ID in a versioned bucket only adds a delete marker.
use opens.Prelude.{◌≡◌, ◌≢◌, some, Bytes}
use opens.Kv.{Engine}
use opens.Meta.Keys.{object_key, new_version_id}
use opens.Meta.Types.{Bucket, Object}
use opens.Meta.Store.{Codec}
use opens.Service.Lock.{Go}
use opens.Service.Delete.{DeleteInput, Context, Outcome, refused, done, marker}

module _ (go : Go) (kv : Engine) (buckets : Codec Bucket) (objects : Codec Object) (c : Context)
    (tx : kv.Txn) (i : DeleteInput) where
  abbrev marker_key : Bytes
  marker_key = object_key i.bucket i.key c.seq

  -- The delete marker is stored, and every other key reads as before.
  pub AddsMarker : Outcome kv.Txn → Type 0
  AddsMarker (refused e) = Unit
  AddsMarker (done r) =
      (kv.get r.tx marker_key ≡ some (objects.encode (marker c i (new_version_id c.seq c.random))))
      × ((x : Bytes) → x ≢ marker_key → kv.get r.tx x ≡ kv.get tx x)
