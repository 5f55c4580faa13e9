-- ===== src/Service/Delete/Locked.antt =====
-- Object lock: `DeleteObject` never removes a version that is under legal hold or retention.
use opens.Prelude.{ℕ, ◌≡◌, ◌≢◌, refl, ap, Bool, true, Option, none, some, List, Bytes, arith}
use opens.Kv.{Engine}
use opens.Meta.Keys.{null_version_id, object_key}
use opens.Meta.Types.{Bucket, Part, Object}
use opens.Meta.Store.{Codec, ok, is_null, get_version, delete_version}
use opens.Service.Lock.{Go, DeleteError, check_locked}
use opens.Service.Delete.{
  DeleteInput, Context, Outcome, refused, done, marker, unchanged, with_marker, delete_object,
}
use opens.Service.Delete.Records.{Records, Stored}
use opens.Service.Delete.Paths.{delete_object-holds}
use opens.Service.Delete.Kept.{own_key, delete_version-Kept, put_object-Kept}

module _ (kv : Engine) (objects : Codec Object) (tx : kv.Txn) where
  module _ (b k : Bytes) (s : ℕ) (o : Object)
      (held : kv.get tx (object_key b k s) ≡ some (objects.encode o))
      (records : Records kv objects tx) where
    -- Behind the transaction the record of the version is what it was.
    unfoldable pub KeptBy : Outcome kv.Txn → Type 0
    KeptBy (refused e) = Unit
    KeptBy (done r) =
        kv.get r.tx (own_key kv objects tx b k s o held records) ≡ some (objects.encode o)

    module _ (go : Go) (buckets : Codec Bucket) (c : Context) (i : DeleteInput) (e : DeleteError)
        (locked : check_locked c.now o i.bypass_governance ≡ some e)
        (fresh : kv.get tx (object_key i.bucket i.key c.seq) ≡ none) where
      not_locked : (p : Object) → check_locked c.now p i.bypass_governance ≡ none → o ≢ p
      not_locked p n f =
          ground (arith, ap (λ (q : Object). check_locked c.now q i.bypass_governance) f)

      own_fresh : (own_key kv objects tx b k s o held records) ≢ object_key i.bucket i.key c.seq
      own_fresh f = ground (arith, held, ap (kv.get tx) f)

      refused_Kept : (x : DeleteError) → KeptBy (refused x)
      unfolding KeptBy
      refused_Kept x = tt

      unchanged_Kept : KeptBy (unchanged go kv buckets objects c tx)
      unfolding KeptBy unchanged
      unchanged_Kept = held

      deleted_Kept :
          (p : Object) (marked : Bool) (vid : Bytes) (removed : List Part)
          (event : Option (Bytes × Object))
          → Stored kv objects tx p
          → o ≢ p
          → KeptBy (
              done (record {
                tx = delete_version kv tx p;
                delete_marker = marked;
                version_id = vid;
                removed = removed;
                event = event;
              }))
      unfolding KeptBy
      deleted_Kept p marked vid removed event m n =
          delete_version-Kept kv objects tx b k s o held records p m n

      marked_Kept :
          (vid : Bytes) (removed : List Part)
          → (is_null (marker c i vid) ≡ true
              → (p : Object) → get_version kv objects tx i.bucket i.key null_version_id ≡ ok p
              → check_locked c.now p i.bypass_governance ≡ none)
          → KeptBy (with_marker go kv buckets objects c tx (marker c i vid) removed)
      unfolding with_marker KeptBy marker
      marked_Kept vid removed h =
          put_object-Kept kv objects tx b k s o held records (marker c i vid) own_fresh
            (λ n g. not_locked o (h n o g) refl)

      -- A stored version under legal hold, or under retention that the request cannot
      -- bypass at its time, is still stored as it was behind DeleteObject, whatever version
      -- the request names and however the bucket is versioned: if the record of every
      -- version lies under its own key, and no record of the requested key has the new
      -- sequence number yet.
      pub delete_object-Kept : KeptBy (delete_object go kv buckets objects c tx i)
      delete_object-Kept =
          delete_object-holds kv objects tx go buckets c i KeptBy refused_Kept unchanged_Kept
            (λ p marked vid removed event m n.
              deleted_Kept p marked vid removed event m (not_locked p n))
            marked_Kept
