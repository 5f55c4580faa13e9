-- ===== src/Service/Delete/Records.antt =====
-- Where the versions that are read come from: records of the store.
use opens.Prelude.{
  ℕ, ◌+◌, ◌≡◌, ◌⊎◌, refl, ap, ◌∙◌, inl, inr, true, false, Option, none, some, [], ◌∷◌, ◌++◌, Bytes,
  codes, eq_bytes, eq_bytes_sound, has_prefix, has_prefix-append, has_prefix_sound, length,
  length-append, arith, Bool-cases, Option-cases,
}
use mathlib.Core.Option.{some-injective}
use opens.Kv.{Engine}
use opens.Meta.Hex.{hex}
use opens.Meta.Hex.Laws.{length-hex}
use opens.Meta.Keys.{
  null_version_id, ver_key, object_prefix, object_key, null_key, new_version_id,
  seq_from_version_id,
}
use opens.Meta.Types.{Object}
use opens.Meta.Store.{
  Codec, StoreError, Result, ok, failed, decoded, of_version, is_null, get_version,
}
use opens.Meta.Latest.{first_with_prefix, get_latest}
use opens.Meta.Latest.Laws.{first_with_prefix-some}
use opens.Service.Delete.{DeleteInput, Context, marker}

pub decoded-found :
    {A : Type 0} (c : Codec A) (r : Option Bytes) (o : A)
    → decoded c r ≡ ok o
    → (v : Bytes) × (r ≡ some v) × (c.decode v ≡ some o)
unfolding decoded
decoded-found c none o h = ground arith
decoded-found c (some v) o h = (v, refl, ground (arith, Option-cases (c.decode v)))

pub of_version-found :
    (version_id : Bytes) (r : Result Object) (o : Object)
    → of_version version_id r ≡ ok o
    → r ≡ ok o
unfolding of_version
of_version-found version_id (failed e) o h = h
of_version-found version_id (ok p) o h = ground arith

pub Result-cases :
    {A : Type 0} (r : Result A) → ((e : StoreError) × (r ≡ failed e)) ⊎ ((x : A) × (r ≡ ok x))
Result-cases (failed e) = inl (e, refl)
Result-cases (ok x) = inr (x, refl)

-- A property of a choice on a result holds if it holds in both branches.
pub result_elim :
    {A B : Type 0} (P : B → Type 0) (r : Result A) (f : StoreError → B) (g : A → B)
    → ((e : StoreError) → r ≡ failed e → P (f e))
    → ((x : A) → r ≡ ok x → P (g x))
    → P (elim r [ failed e ↦ f e | ok x ↦ g x ])
result_elim P (failed e) f g h k = h e refl
result_elim P (ok x) f g h k = k x refl

pub ok-injective : (o p : Object) → ok o ≡ ok p → o ≡ p
ok-injective o p e = cc

pub numbered_marker :
    (c : Context) (i : DeleteInput) → is_null (marker c i (new_version_id c.seq c.random)) ≡ false
unfolding is_null marker new_version_id
numbered_marker c i = elim (Bool-cases (eq_bytes (hex 16 c.seq ++ c.random) null_version_id)) [
  | inr n ↦ n
  | inl n ↦ absurd (
      too_long (length-hex 16 c.seq) (length-append (hex 16 c.seq) c.random)
        (ap length (eq_bytes_sound _ _ n)))
]
  where
    too_long :
        length (hex 16 c.seq) ≡ 16
        → length (hex 16 c.seq ++ c.random) ≡ length (hex 16 c.seq) + length c.random
        → length (hex 16 c.seq ++ c.random) ≡ 4
        → ⊥
    too_long a b d = omega arith

module _ (kv : Engine) (objects : Codec Object) (tx : kv.Txn) where
  -- Every record of a version lies under the key of the object that it holds.
  abbrev pub Records : Type 0
  Records =
      (x v : Bytes) (o : Object)
      → kv.get tx x ≡ some v
      → objects.decode v ≡ some o
      → has_prefix x (codes "o/") ≡ true
      → x ≡ object_key o.bucket o.key o.seq

  -- The object is what some record of a version holds.
  abbrev pub Stored : Object → Type 0
  Stored o =
      (x v : Bytes) × (has_prefix x (codes "o/") ≡ true)
      × (kv.get tx x ≡ some v)
      × (objects.decode v ≡ some o)

  pub object_key-is_record :
      (b k : Bytes) (s : ℕ) → has_prefix (object_key b k s) (codes "o/") ≡ true
  unfolding object_key
  object_key-is_record b k s = has_prefix-append (codes "o/") (b ++ b'/' ∷ (k ++ 0 ∷ ver_key s))

  pub object_prefix-is_record :
      (b k s : Bytes) → has_prefix (object_prefix b k ++ s) (codes "o/") ≡ true
  unfolding object_prefix
  object_prefix-is_record b k s = has_prefix-append (codes "o/") ((b ++ b'/' ∷ (k ++ 0 ∷ [])) ++ s)

  pub get_version-Stored :
      (b k vid : Bytes) (o : Object) → get_version kv objects tx b k vid ≡ ok o → Stored o
  unfolding get_version
  get_version-Stored b k vid o h = elim (Bool-cases (eq_bytes vid null_version_id)) [
    | inl n ↦ elim (Option-cases (kv.get tx (null_key b k))) [
      | inl e ↦ ground arith
      | inr (vk, e) ↦
          let (v, g, d) =
            decoded-found objects (kv.get tx (object_prefix b k ++ vk)) o (ground arith) in
          (object_prefix b k ++ vk, v, object_prefix-is_record b k vk, g, d)
    ]
    | inr n ↦ elim (Option-cases (seq_from_version_id vid)) [
      | inl e ↦ ground arith
      | inr (s, e) ↦
          let (v, g, d) = decoded-found objects (kv.get tx (object_key b k s)) o (
            of_version-found vid (decoded objects (kv.get tx (object_key b k s))) o
              (ground arith)) in
          (object_key b k s, v, object_key-is_record b k s, g, d)
    ]
  ]

  pub get_latest-Stored :
      (b k : Bytes) (o : Object) → get_latest kv objects tx b k ≡ ok o → Stored o
  unfolding get_latest
  get_latest-Stored b k o h = elim (Option-cases (first_with_prefix kv tx (object_prefix b k))) [
    | inl e ↦ let (v, g, d) = decoded-found objects none o (ground arith) in ground arith
    | inr ((x, w), e) ↦
        let (p, g, _) = first_with_prefix-some kv tx (object_prefix b k) x w e in
        let (v, f, d) = decoded-found objects (some w) o (ground arith) in
        (
          x,
          w,
          rw (has_prefix_sound x (object_prefix b k) p) (object_prefix-is_record b k _),
          g,
          ap objects.decode (some-injective _ _ f) ∙ d,
        )
  ]
