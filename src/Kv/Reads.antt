-- ===== src/Kv/Reads.antt =====
-- What a Get sees behind a Put or a Delete, by whether the keys are the same.
use opens.Prelude.{
  ◌≡◌, ◌≢◌, false, none, some, Bytes, eq_bytes, eq_bytes_refl, eq_bytes_sound, arith, Bool-cases,
  inl, inr,
}
use opens.Kv.{Engine}

pub eq_bytes-distinct : (a b : Bytes) → a ≢ b → eq_bytes a b ≡ false
eq_bytes-distinct a b h = elim (Bool-cases (eq_bytes a b)) [
  | inl e ↦ absurd (h (eq_bytes_sound a b e))
  | inr e ↦ e
]

module _ (kv : Engine) (t : kv.Txn) where
  pub get-put_same : (k v : Bytes) → kv.get (kv.put t k v) k ≡ some v
  get-put_same k v = ground (arith, kv.get_put t k v k, eq_bytes_refl k)

  pub get-put_other : (k v k' : Bytes) → k' ≢ k → kv.get (kv.put t k v) k' ≡ kv.get t k'
  get-put_other k v k' h = ground (arith, kv.get_put t k v k', eq_bytes-distinct k' k h)

  pub get-delete_same : (k : Bytes) → kv.get (kv.delete t k) k ≡ none
  get-delete_same k = ground (arith, kv.get_delete t k k, eq_bytes_refl k)

  pub get-delete_other : (k k' : Bytes) → k' ≢ k → kv.get (kv.delete t k) k' ≡ kv.get t k'
  get-delete_other k k' h = ground (arith, kv.get_delete t k k', eq_bytes-distinct k' k h)
