-- ===== src/Service/Runs.antt =====
-- internal/object: sequences of the operations that change versions, each in one transaction.
pub mod Worm
use opens.Prelude.{ℕ, ℤ, Bool, Option, List, [], ◌∷◌, Bytes}
use opens.Kv.{Engine}
use opens.Iam.Types.{Acl}
use opens.Meta.Types.{Time, Tag, Retention, Bucket, Object}
use opens.Meta.Store.{Codec}
use opens.Service.Lock.{Go}
use opens.Service.Delete as Delete
use opens.Service.Delete.{Context, DeleteInput, delete_object}
use opens.Service.Update as Update
use opens.Service.Update.{
  VersionName, put_object_tagging, delete_object_tagging, put_object_acl, put_object_retention,
  put_object_legal_hold,
}
use opens.Service.Put as Put
use opens.Service.Put.{PutInput, Written, put_object_service}

-- A call of the service. Where it reads the bucket in a transaction of its own, that may have been any.
pub data Call (Txn : Type 0) : Type 0 where
  put : Txn → PutInput → (Bucket → Option Written) → Call Txn
  delete : DeleteInput → Call Txn
  put_tags : VersionName → List Tag → Call Txn
  delete_tags : VersionName → Call Txn
  put_acl : VersionName → Option Acl → Call Txn
  put_retention : Txn → VersionName → Option Retention → Bool → Call Txn
  put_legal_hold : Txn → VersionName → Bool → Call Txn

module _ (go : Go) (add_date : Time → ℤ → ℤ → Time) (kv : Engine) (buckets : Codec Bucket)
    (objects : Codec Object) where
  open kv use {Txn}

  -- An error rolls back, so the store is as before.
  pub after_delete : Txn → Delete.Outcome Txn → Txn
  after_delete tx (Delete.refused e) = tx
  after_delete tx (Delete.done r) = r.tx

  pub after_update : Txn → Update.Outcome Txn → Txn
  after_update tx (Update.refused e) = tx
  after_update tx (Update.done r) = r.tx

  pub after_put : Txn → Put.Outcome Txn → Txn
  after_put tx (Put.refused e) = tx
  after_put tx (Put.done r) = r.tx

  -- s.kv.Update with the transaction of one call
  pub step : Context → Call Txn → Txn → Txn
  unfolding after_delete after_update after_put
  step c (put view i written) tx =
      after_put tx (put_object_service go add_date kv buckets objects c view tx i written)
  step c (delete i) tx = after_delete tx (delete_object go kv buckets objects c tx i)
  step c (put_tags n tags) tx =
      after_update tx (put_object_tagging go kv buckets objects c tx n tags)
  step c (delete_tags n) tx = after_update tx (delete_object_tagging go kv buckets objects c tx n)
  step c (put_acl n acl) tx = after_update tx (put_object_acl go kv buckets objects c tx n acl)
  step c (put_retention view n r bypass) tx =
      after_update tx (put_object_retention go kv buckets objects c view tx n r bypass)
  step c (put_legal_hold view n on) tx =
      after_update tx (put_object_legal_hold go kv buckets objects c view tx n on)

  pub run : List (Context × Call Txn) → Txn → Txn
  unfolding step
  run [] tx = tx
  run ((c, call) ∷ calls) tx = run calls (step c call tx)
