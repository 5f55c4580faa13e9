-- ===== src/Meta/Scan.antt =====
-- internal/meta/store.go: the loops `for it.Valid() && bytes.HasPrefix(it.Key(), p)` of the listings.
pub mod Laws
use opens.Prelude.{
  ℕ, zero, suc, ◌+◌, Option, none, some, [], ◌∷◌, ◌++◌, Bytes, has_prefix, length, if◌then◌else◌,
}
use opens.Kv.{Engine}
use opens.Meta.Store.{StoreError}

-- What a loop ends with: its result, an error that the function returns, a panic of the runtime, or
-- no end within the fuel.
pub data Scanned (S : Type 0) : Type 0 where
  done : S → Scanned S
  broken : StoreError → Scanned S
  panicked endless : Scanned S

-- What the body does at a record: it.Next(), it.Seek(k), or it leaves the loop.
pub data Move (S : Type 0) : Type 0 where
  next : S → Move S
  jump : Bytes → S → Move S
  leave : Scanned S → Move S

-- The first key behind `k`, where it.Next() goes to.
abbrev pub behind : Bytes → Bytes
behind k = k ++ 0 ∷ []

module _ (kv : Engine) where
  -- tx.Seek(start), and then it.Valid() && bytes.HasPrefix(it.Key(), p)
  unfoldable pub first_from : kv.Txn → Bytes → Bytes → Option (Bytes × Bytes)
  first_from tx p start = elim (kv.seek tx start) [
    | none ↦ none
    | some (k, v) ↦ if has_prefix k p then some (k, v) else none
  ]

  unfoldable pub scan :
      {S : Type 0} → ℕ → kv.Txn → Bytes → (Bytes → Bytes → S → Move S) → Bytes → S → Scanned S
  unfolding first_from
  scan zero tx p body start s = endless
  scan (suc fuel) tx p body start s = elim (first_from tx p start) [
    | none ↦ done s
    | some (k, v) ↦ elim (body k v s) [
      | next s' ↦ scan fuel tx p body (behind k) s'
      | jump to s' ↦ scan fuel tx p body to s'
      | leave r ↦ r
    ]
  ]

  -- One round for each record, and one to see the end.
  abbrev pub enough : kv.Txn → ℕ
  enough tx = length (kv.keys tx) + 1
