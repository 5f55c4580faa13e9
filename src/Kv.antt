-- ===== src/Kv.antt =====
-- internal/kv/kv.go: the ordered key-value store, which bbolt implements, and `PrefixSuccessor`.
pub mod Bounds
pub mod Reads
pub mod Lex
use opens.Prelude.{
  ℕ, ◌+◌, ◌≡◌, Bool, true, false, ◌&&◌, ◌||◌, Option, none, some, [], ◌∷◌, Bytes, eq_bytes, ltb,
  List, In, ◌==◌, if◌then◌else◌,
}

-- Keys are compared lexicographically.
unfoldable pub lt_bytes : Bytes → Bytes → Bool
lt_bytes s [] = false
lt_bytes [] (y ∷ t) = true
lt_bytes (x ∷ s) (y ∷ t) = ltb x y || (x == y && lt_bytes s t)

-- A read-write transaction: the operations of `Txn`, `none` for ErrNotFound, what a later Get sees,
-- that Seek goes to the first key from a start on, and that there are finitely many keys. The other errors of bbolt (a read-only transaction, a key that is too long)
-- end the transaction, which is rolled back; they are not modelled.
pub record Engine : Type 1 where
  pub Txn : Type 0
  pub get : Txn → Bytes → Option Bytes
  pub put : Txn → Bytes → Bytes → Txn
  pub delete : Txn → Bytes → Txn
  pub get_put :
      (t : Txn) (k v k' : Bytes) → get (put t k v) k' ≡ (if eq_bytes k' k then some v else get t k')
  pub get_delete :
      (t : Txn) (k k' : Bytes) → get (delete t k) k' ≡ (if eq_bytes k' k then none else get t k')
  -- Seek(start), as the key and the value that the iterator is at; `none` if it is not valid
  pub seek : Txn → Bytes → Option (Bytes × Bytes)
  pub seek_found :
      (t : Txn) (start k v : Bytes)
      → seek t start ≡ some (k, v)
      → (lt_bytes k start ≡ false) × (get t k ≡ some v)
  pub seek_least :
      (t : Txn) (start k v k' : Bytes)
      → seek t start ≡ some (k, v)
      → lt_bytes k' start ≡ false
      → lt_bytes k' k ≡ true
      → get t k' ≡ none
  pub seek_none :
      (t : Txn) (start k' : Bytes)
      → seek t start ≡ none
      → lt_bytes k' start ≡ false
      → get t k' ≡ none
  -- A store holds finitely many records.
  pub keys : Txn → List Bytes
  pub get_keys : (t : Txn) (k v : Bytes) → get t k ≡ some v → In k (keys t)

-- PrefixSuccessor(prefix): the last byte that is not 0xff is counted up, what follows is dropped
unfoldable pub prefix_successor : Bytes → Option Bytes
prefix_successor [] = none
prefix_successor (c ∷ prefix) = elim (prefix_successor prefix) [
  | some out ↦ some (c ∷ out)
  | none ↦ if c == 255 then none else some ((c + 1) ∷ [])
]
