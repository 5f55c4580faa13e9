-- ===== src/Meta/Collect.antt =====
-- internal/meta/store.go: the loops over all records below a prefix, in ListBuckets, ListParts,
-- ScanBucketObjects and ScanBucketUploads.
pub mod Laws
use opens.Prelude.{
  ℕ, Bool, true, false, Option, none, some, List, [], ◌∷◌, ◌++◌, Bytes, if◌then◌else◌,
}
use opens.Kv.{Engine}
use opens.Meta.Keys.{bucket_prefix, object_bucket_prefix, upload_bucket_prefix}
use opens.Meta.Types.{Bucket, Object, Upload}
use opens.Meta.Store.{Codec, undecodable}
use opens.Meta.Scan.{Scanned, done, broken, Move, next, leave, scan, enough}

-- The body of such a loop: it can stop before a record, and `fn` can stop it behind one.
pub each_body :
    {A S : Type 0} → Codec A → (S → Bool) → (A → S → Bool × S) → Bytes → Bytes → S → Move S
each_body codec full fn k v s = if full s then leave (done s) else elim (codec.decode v) [
  | none ↦ leave (broken undecodable)
  | some a ↦ if (fn a s).0 then next (fn a s).1 else leave (done (fn a s).1)
]

-- out = append(out, x)
abbrev pub append : {A : Type 0} → A → List A → Bool × List A
append a out = (true, out ++ a ∷ [])

module _ (kv : Engine) where
  pub each :
      {A S : Type 0}
      → Codec A
      → (S → Bool)
      → (A → S → Bool × S)
      → kv.Txn
      → Bytes
      → Bytes
      → S
      → Scanned S
  unfolding each_body
  each codec full fn tx p start s = scan kv (enough kv tx) tx p (each_body codec full fn) start s

  -- ListBuckets(tx)
  pub list_buckets : Codec Bucket → kv.Txn → Scanned (List Bucket)
  unfolding each
  list_buckets buckets tx = each buckets (λ _. false) append tx bucket_prefix bucket_prefix []

  -- ScanBucketObjects(tx, bucket, fn), ScanBucketUploads(tx, bucket, fn), with the variables of `fn`
  pub scan_bucket_objects :
      {S : Type 0} → Codec Object → kv.Txn → Bytes → (Object → S → Bool × S) → S → Scanned S
  unfolding each
  scan_bucket_objects objects tx bucket fn s =
      let p = object_bucket_prefix bucket in each objects (λ _. false) fn tx p p s

  pub scan_bucket_uploads :
      {S : Type 0} → Codec Upload → kv.Txn → Bytes → (Upload → S → Bool × S) → S → Scanned S
  unfolding each
  scan_bucket_uploads uploads tx bucket fn s =
      let p = upload_bucket_prefix bucket in each uploads (λ _. false) fn tx p p s
