-- ===== src/Meta/Latest/Laws.antt =====
-- The latest version of a key is the one with the largest sequence number.
use opens.Prelude.{
  ℕ, ◌<◌, ◌≡◌, ◌⊎◌, refl, ◌∙◌, inl, inr, true, false, none, some, Bytes, has_prefix,
  has_prefix-append, arith, Option-cases, lt→ltb,
}
use opens.Kv.{Engine, lt_bytes}
use opens.Kv.Lex.{has_prefix-lt_bytes, has_prefix_between}
use opens.Meta.Keys.{ver_key, object_prefix, object_key, object_bucket_prefix}
use opens.Meta.Keys.Laws.{object_key-prefix, object_key-order}
use opens.Meta.Types.{Object}
use opens.Meta.Store.{Codec, failed, not_found, decoded}
use opens.Meta.Latest.{first_with_prefix, get_latest, bucket_has_objects}

module _ (kv : Engine) (tx : kv.Txn) where
  -- What a scan finds first: a key with the prefix, and none with the prefix before it.
  pub first_with_prefix-some :
      (p k v : Bytes)
      → first_with_prefix kv tx p ≡ some (k, v)
      → (has_prefix k p ≡ true)
        × (kv.get tx k ≡ some v)
        × ((y : Bytes) → has_prefix y p ≡ true → lt_bytes y k ≡ true → kv.get tx y ≡ none)
  unfolding first_with_prefix
  first_with_prefix-some p k v h = elim (Option-cases (kv.seek tx p)) [
    | inl e ↦ ground arith
    | inr ((x, w), e) ↦
        let at_x : kv.seek tx p ≡ some (k, v) = ground arith in
        (
          ground arith,
          (kv.seek_found tx p k v at_x).1,
          λ y yp l. kv.seek_least tx p k v y at_x (has_prefix-lt_bytes y p yp) l,
        )
  ]

  pub first_with_prefix-none :
      (p y : Bytes) → first_with_prefix kv tx p ≡ none → has_prefix y p ≡ true → kv.get tx y ≡ none
  unfolding first_with_prefix
  first_with_prefix-none p y h yp = elim (Option-cases (kv.seek tx p)) [
    | inl e ↦ kv.seek_none tx p y e (has_prefix-lt_bytes y p yp)
    | inr ((x, w), e) ↦ ground (
      arith,
      kv.seek_found tx p x w e,
      has_prefix_between x y p yp,
      has_prefix-lt_bytes y p yp,
      kv.seek_least tx p x w y e,
    )
  ]

  -- Whether a bucket has objects: if so, a record below its prefix exists, and otherwise none does.
  pub bucket_has_objects-get :
      (name : Bytes)
      → ((bucket_has_objects kv tx name ≡ true)
          × ((k v : Bytes) × (has_prefix k (object_bucket_prefix name) ≡ true)
              × (kv.get tx k ≡ some v)))
        ⊎ ((bucket_has_objects kv tx name ≡ false)
            × ((k : Bytes) → has_prefix k (object_bucket_prefix name) ≡ true → kv.get tx k ≡ none))
  unfolding bucket_has_objects
  bucket_has_objects-get name =
      elim (Option-cases (first_with_prefix kv tx (object_bucket_prefix name))) [
        | inl e ↦ inr (ground arith, λ k. first_with_prefix-none (object_bucket_prefix name) k e)
        | inr ((k, v), e) ↦
            let (p, g, _) = first_with_prefix-some (object_bucket_prefix name) k v e in
            inl (ground arith, (k, v, p, g))
      ]

  -- Below the prefix of a key there are only the records of its versions.
  abbrev pub OnlyVersions : Bytes → Bytes → Type 0
  OnlyVersions b k =
      (x v : Bytes)
      → kv.get tx x ≡ some v
      → has_prefix x (object_prefix b k) ≡ true
      → (s : ℕ) × (s < 18446744073709551616) × (x ≡ object_key b k s)

  object_key-has_prefix :
      (b k : Bytes) (s : ℕ) → has_prefix (object_key b k s) (object_prefix b k) ≡ true
  object_key-has_prefix b k s =
      rw (object_key-prefix b k s) (has_prefix-append (object_prefix b k) (ver_key s))

  -- If there are only records of its versions below the prefix of a key, GetLatest returns the version
  -- with the largest number, or finds that there is no version.
  pub get_latest-newest :
      (objects : Codec Object) (b k : Bytes)
      → OnlyVersions b k
      → ((get_latest kv objects tx b k ≡ failed not_found)
          × ((s : ℕ) → s < 18446744073709551616 → kv.get tx (object_key b k s) ≡ none))
        ⊎ ((s : ℕ) × (v : Bytes) × (kv.get tx (object_key b k s) ≡ some v)
            × (get_latest kv objects tx b k ≡ decoded objects (some v))
            × ((m : ℕ) → s < m → m < 18446744073709551616 → kv.get tx (object_key b k m) ≡ none))
  unfolding get_latest
  get_latest-newest objects b k only =
      elim (Option-cases (first_with_prefix kv tx (object_prefix b k))) [
        | inl e ↦ inl (
          ground (arith, nothing),
          λ s h.
              first_with_prefix-none (object_prefix b k) (object_key b k s) e
                (object_key-has_prefix b k s),
        )
        | inr ((x, v), e) ↦
            let (p, g, before) = first_with_prefix-some (object_prefix b k) x v e in
            let (s, h, at_s) = only x v g p in
            inr (
              s,
              v,
              rw (← at_s) g,
              ground arith,
              λ m l hm.
                  before (object_key b k m) (object_key-has_prefix b k m)
                    (rw at_s (object_key-order b k m s hm h ∙ lt→ltb s m l)),
            )
      ]
    where
      nothing : decoded objects none ≡ failed not_found
      nothing = unfold decoded in refl
