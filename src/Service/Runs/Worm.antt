-- ===== src/Service/Runs/Worm.antt =====
-- Write once, read many: compliance retention through any sequence of calls.
use opens.Prelude.{ℕ, ◌<◌, ℤ, List, [], ◌∷◌, Bytes, In}
use opens.Kv.{Engine}
use opens.Meta.Types.{Time, Bucket, Object}
use opens.Meta.Store.{Codec}
use opens.Meta.Store.Dropped.{NoSlash}
use opens.Service.Lock.{Go}
use opens.Service.Held.{Held}
use opens.Service.Sound.{Sound, Sound-more}
use opens.Service.Delete as Delete
use opens.Service.Delete.{Context, DeleteInput}
use opens.Service.Delete.Held as DeleteHeld
use opens.Service.Delete.Held.{delete_object-Safe}
use opens.Service.Update as Update
use opens.Service.Update.{VersionName}
use opens.Service.Update.Held as UpdateHeld
use opens.Service.Update.Held.{
  put_object_tagging-Safe, delete_object_tagging-Safe, put_object_acl-Safe,
  put_object_retention-Safe, put_object_legal_hold-Safe,
}
use opens.Service.Put as Put
use opens.Service.Put.{PutInput}
use opens.Service.Put.Held as PutHeld
use opens.Service.Put.Held.{put_object_service-Safe}
use opens.Service.Runs.{
  Call, put, delete, put_tags, delete_tags, put_acl, put_retention, put_legal_hold, after_delete,
  after_update, after_put, step, run,
}

-- The bucket that a call names.
abbrev pub bucket_of : {Txn : Type 0} → Call Txn → Bytes
bucket_of (put _ i _) = i.bucket
bucket_of (delete i) = i.bucket
bucket_of (put_tags n _) = n.bucket
bucket_of (delete_tags n) = n.bucket
bucket_of (put_acl n _) = n.bucket
bucket_of (put_retention _ n _ _) = n.bucket
bucket_of (put_legal_hold _ n _) = n.bucket

-- The calls name buckets without a slash, run before the time, and have numbers of 64 bits of which the
-- sequencer hands out none twice.
abbrev pub Orderly : {Txn : Type 0} → Time → List ℕ → List (Context × Call Txn) → Type 0
Orderly t used [] = Unit
Orderly t used ((c, call) ∷ calls) =
    NoSlash (bucket_of call)
    × (c.now < t)
    × (c.seq < 18446744073709551616)
    × ¬ (In c.seq used)
    × Orderly t (c.seq ∷ used) calls

module _ (kv : Engine) (objects : Codec Object) (t : Time) (b k : Bytes) (s : ℕ) where
  -- The store is sound, and the version is held.
  abbrev pub Kept : List ℕ → kv.Txn → Type 0
  Kept used tx = Sound kv objects used tx × Held kv objects t b k s tx

  module _ (go : Go) (add_date : Time → ℤ → ℤ → Time) (buckets : Codec Bucket) where
    module _ (used : List ℕ) (c : Context) (tx : kv.Txn) (sound : Sound kv objects used tx)
        (held : Held kv objects t b k s tx) (early : c.now < t)
        (small : c.seq < 18446744073709551616) (new : ¬ (In c.seq used)) where
      -- A call that fails uses up its number.
      unchanged-Kept : Kept (c.seq ∷ used) tx
      unchanged-Kept = (Sound-more kv objects used c.seq tx sound, held)

      after_put-Kept :
          (i : PutInput) (slash : NoSlash i.bucket) (r : Put.Outcome kv.Txn)
          → PutHeld.Safe kv objects t b k s used tx sound held go add_date buckets c i slash small
              new early r
          → Kept (c.seq ∷ used) (after_put go add_date kv buckets objects tx r)
      unfolding PutHeld.Safe after_put
      after_put-Kept i slash (Put.refused e) h = unchanged-Kept
      after_put-Kept i slash (Put.done r) h = h

      after_delete-Kept :
          (i : DeleteInput) (slash : NoSlash i.bucket) (r : Delete.Outcome kv.Txn)
          → DeleteHeld.Safe kv objects t b k s used tx sound held go buckets c i slash small new
              early r
          → Kept (c.seq ∷ used) (after_delete go add_date kv buckets objects tx r)
      unfolding DeleteHeld.Safe after_delete
      after_delete-Kept i slash (Delete.refused e) h = unchanged-Kept
      after_delete-Kept i slash (Delete.done r) h = h

      after_update-Kept :
          (r : Update.Outcome kv.Txn)
          → UpdateHeld.Safe kv objects t b k s used tx sound held r
          → Kept (c.seq ∷ used) (after_update go add_date kv buckets objects tx r)
      unfolding UpdateHeld.Safe after_update
      after_update-Kept (Update.refused e) h = unchanged-Kept
      after_update-Kept (Update.done r) h = (Sound-more kv objects used c.seq r.tx h.0, h.1)

      step-Kept :
          (call : Call kv.Txn)
          → NoSlash (bucket_of call)
          → Kept (c.seq ∷ used) (step go add_date kv buckets objects c call tx)
      unfolding step
      step-Kept (put view i written) slash = after_put-Kept i slash _ (
          put_object_service-Safe kv objects t b k s used tx sound held go add_date buckets c i
            slash small new early view written)
      step-Kept (delete i) slash = after_delete-Kept i slash _ (
          delete_object-Safe kv objects t b k s used tx sound held go buckets c i slash small new
            early)
      step-Kept (put_tags n tags) slash =
          after_update-Kept _ (
            put_object_tagging-Safe kv objects t b k s used tx sound held go buckets c n slash tags)
      step-Kept (delete_tags n) slash =
          after_update-Kept _
            (delete_object_tagging-Safe kv objects t b k s used tx sound held go buckets c n slash)
      step-Kept (put_acl n acl) slash =
          after_update-Kept _
            (put_object_acl-Safe kv objects t b k s used tx sound held go buckets c n slash acl)
      step-Kept (put_retention view n r bypass) slash = after_update-Kept _ (
          put_object_retention-Safe kv objects t b k s used tx sound held go buckets c n slash view
            r bypass early)
      step-Kept (put_legal_hold view n on) slash = after_update-Kept _ (
          put_object_legal_hold-Safe kv objects t b k s used tx sound held go buckets c n slash view
            on)

    run-Kept :
        (calls : List (Context × Call kv.Txn)) (used : List ℕ) (tx : kv.Txn)
        → Orderly t used calls
        → Kept used tx
        → (more : List ℕ) × Kept more (run go add_date kv buckets objects calls tx)
    unfolding run
    run-Kept [] used tx o h = (used, h)
    run-Kept ((c, call) ∷ calls) used tx (slash, early, small, new, rest) (sound, held) =
        run-Kept calls (c.seq ∷ used) (step go add_date kv buckets objects c call tx) rest
          (step-Kept used c tx sound held early small new call slash)

    -- A stored version under compliance retention up to a time is still stored, under compliance retention
    -- up to that time or a later one, behind any sequence of PutObject, DeleteObject, and changes of tags,
    -- ACLs, retention and legal holds that run before that time, whether or not they ask to bypass
    -- governance, and whatever buckets were read before: if each record of a version in the store holds the
    -- object that its key names, with a number that was handed out, no number is handed out twice or
    -- exceeds 64 bits, and the buckets that the calls name have no slash in their names.
    pub run-Held :
        (calls : List (Context × Call kv.Txn)) (used : List ℕ) (tx : kv.Txn)
        → Orderly t used calls
        → Sound kv objects used tx
        → Held kv objects t b k s tx
        → Held kv objects t b k s (run go add_date kv buckets objects calls tx)
    run-Held calls used tx o sound held = (run-Kept calls used tx o (sound, held)).1.1
