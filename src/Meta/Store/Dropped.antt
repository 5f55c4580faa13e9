-- ===== src/Meta/Store/Dropped.antt =====
-- What the first step of `PutObject` does to the store, and that null pointers are told apart.
use opens.Prelude.{
  ℕ, ◌≡◌, ◌≢◌, ◌⊎◌, sym, ap, ◌∙◌, inl, inr, none, some, ◌++◌, Bytes, All, codes, drop, eq_bytes,
  arith, Option-cases, take,
}
use mathlib.Core.Option.{some-injective}
use opens.Kv.{Engine}
use opens.Kv.Reads.{get-delete_same, get-delete_other}
use opens.Meta.Keys.{ver_key, object_prefix, object_key, null_key, cut_first}
use opens.Meta.Keys.Split.{cut_first-append}
use opens.Meta.Keys.Laws.{object_key-prefix}
use opens.Meta.Types.{Object}
use opens.Meta.Store.{Codec, drop_null}

abbrev pub NoSlash : Bytes → Type 0
NoSlash = All (λ c. c ≢ b'/')

pub null_key-injective :
    (b b' k k' : Bytes)
    → NoSlash b
    → NoSlash b'
    → null_key b k ≡ null_key b' k'
    → (b ≡ b') × (k ≡ k')
unfolding null_key
null_key-injective b b' k k' n n' e =
    let same : (b, k) ≡ (b', k') = some-injective _ _ (
      sym (cut_first-append b'/' b k n)
      ∙ ap (λ s. cut_first b'/' (drop 2 s)) e
      ∙ cut_first-append b'/' b' k' n') in
    (ap (λ (p : Bytes × Bytes). p.0) same, ap (λ (p : Bytes × Bytes). p.1) same)

null_key-prefix : (b b' k k' vk : Bytes) → null_key b k ≢ object_prefix b' k' ++ vk
unfolding null_key object_prefix eq_bytes
null_key-prefix b b' k k' vk e = ground (arith, ap (λ s. eq_bytes (take 1 s) (codes "o")) e)

module _ (kv : Engine) (objects : Codec Object) where
  module _ (tx : kv.Txn) (b k : Bytes) where
    abbrev pub dropped : kv.Txn
    dropped = (drop_null kv objects tx b k).1

    -- Either nothing is deleted, as the pointer names no record, or the record that it names is.
    pub drop_null-cases :
        ((dropped ≡ tx)
          × ((vk : Bytes)
              → kv.get tx (null_key b k) ≡ some vk
              → kv.get tx (object_prefix b k ++ vk) ≡ none))
        ⊎ ((vk : Bytes) × (kv.get tx (null_key b k) ≡ some vk)
            × (dropped ≡ kv.delete tx (object_prefix b k ++ vk)))
    unfolding drop_null
    drop_null-cases = elim (Option-cases (kv.get tx (null_key b k))) [
      | inl e ↦ inl (ground arith, λ vk h. ground arith)
      | inr (vk, e) ↦ elim (Option-cases (kv.get tx (object_prefix b k ++ vk))) [
        | inl n ↦ inl (ground arith, λ w h. rw (← some-injective _ _ (sym e ∙ h)) n)
        | inr (v, n) ↦ inr (vk, e, ground arith)
      ]
    ]

    pub delete-fewer : (d x v : Bytes) → kv.get (kv.delete tx d) x ≡ some v → kv.get tx x ≡ some v
    delete-fewer d x v h = ground (arith, kv.get_delete tx d x)

    -- Dropping the old null version only deletes records, keeps all pointers, and deletes the record
    -- that the pointer names.
    pub drop_null-fewer : (x v : Bytes) → kv.get dropped x ≡ some v → kv.get tx x ≡ some v
    drop_null-fewer x v h = elim drop_null-cases [
      | inl (e, _) ↦ ap (λ t. kv.get t x) (sym e) ∙ h
      | inr (vk, _, e) ↦
          delete-fewer (object_prefix b k ++ vk) x v (ap (λ t. kv.get t x) (sym e) ∙ h)
    ]

    pub drop_null-pointers :
        (b' k' : Bytes) → kv.get dropped (null_key b' k') ≡ kv.get tx (null_key b' k')
    drop_null-pointers b' k' = elim drop_null-cases [
      | inl (e, _) ↦ ap (λ t. kv.get t (null_key b' k')) e
      | inr (vk, _, e) ↦
          ap (λ t. kv.get t (null_key b' k')) e
          ∙ get-delete_other kv tx (object_prefix b k ++ vk) (null_key b' k')
              (null_key-prefix b' b k' k vk)
    ]

    pub drop_null-gone :
        (s : ℕ)
        → kv.get tx (null_key b k) ≡ some (ver_key s)
        → kv.get dropped (object_key b k s) ≡ none
    drop_null-gone s h = elim drop_null-cases [
      | inl (e, n) ↦
          ap (λ t. kv.get t (object_key b k s)) e ∙ rw (object_key-prefix b k s) (n (ver_key s) h)
      | inr (vk, p, e) ↦
          ap (λ t. kv.get t (object_key b k s)) e
          ∙ rw (object_key-prefix b k s, some-injective _ _ (sym p ∙ h))
              (get-delete_same kv tx (object_prefix b k ++ ver_key s))
    ]
