-- ===== src/Meta/Latest.antt =====
-- internal/meta/store.go: `GetLatest` and `BucketHasObjects`, which seek a prefix.
pub mod Laws
use opens.Prelude.{Bool, true, false, Option, none, some, [], ◌∷◌, Bytes, has_prefix, if◌then◌else◌}
use opens.Kv.{Engine}
use opens.Meta.Keys.{object_prefix, object_bucket_prefix}
use opens.Meta.Types.{Object}
use opens.Meta.Store.{Codec, Result, decoded}

module _ (kv : Engine) where
  -- tx.Seek(p), and then it.Valid() && bytes.HasPrefix(it.Key(), p)
  pub first_with_prefix : kv.Txn → Bytes → Option (Bytes × Bytes)
  first_with_prefix tx p = elim (kv.seek tx p) [
    | none ↦ none
    | some (k, v) ↦ if has_prefix k p then some (k, v) else none
  ]

  -- GetLatest(tx, bucket, key)
  unfoldable pub get_latest : Codec Object → kv.Txn → Bytes → Bytes → Result Object
  unfolding first_with_prefix
  get_latest objects tx bucket key = elim (first_with_prefix tx (object_prefix bucket key)) [
    | none ↦ decoded objects none
    | some (_, v) ↦ decoded objects (some v)
  ]

  -- BucketHasObjects(tx, name)
  pub bucket_has_objects : kv.Txn → Bytes → Bool
  unfolding first_with_prefix
  bucket_has_objects tx name = elim (first_with_prefix tx (object_bucket_prefix name)) [
    | none ↦ false
    | some _ ↦ true
  ]
