-- ===== src/Service/Sound.antt =====
-- The records of versions in a store that the service writes: each holds the object that its key names, and
-- the operations of internal/meta/store.go keep this.
use opens.Prelude.{
  ℕ, ◌<◌, ◌≡◌, refl, sym, ap, subst, ◌∙◌, inl, inr, true, false, none, some, List, ◌∷◌, Bytes, In,
  codes, eq_bytes, eq_bytes_sound, has_prefix, arith, Bool-cases, Option-cases,
}
use mathlib.Core.Option.{some-injective}
use opens.Kv.{Engine}
use opens.Kv.Reads.{get-put_same}
use opens.Meta.Keys.{ver_key, object_key, null_key}
use opens.Meta.Keys.Laws.{object_key-injective}
use opens.Meta.Types.{Object}
use opens.Meta.Store.{Codec, is_null, drop_null, put_object, delete_version}
use opens.Meta.Store.Dropped.{NoSlash, drop_null-fewer, delete-fewer}
use opens.Meta.Listing.Forward.{NoNul}
use opens.Service.Delete.Records.{Records, object_key-is_record}

-- An object can be stored: its bucket has no slash in its name, its key no NUL byte, and its number fits 64
-- bits and is one of those that were handed out.
abbrev pub Fit : List ℕ → Object → Type 0
Fit used o = NoSlash o.bucket × NoNul o.key × (o.seq < 18446744073709551616) × In o.seq used

module _ (kv : Engine) (objects : Codec Object) where
  abbrev pub Sound : List ℕ → kv.Txn → Type 0
  Sound used tx =
      (x v : Bytes)
      → kv.get tx x ≡ some v
      → has_prefix x (codes "o/") ≡ true
      → (o : Object) × (objects.decode v ≡ some o)
        × (x ≡ object_key o.bucket o.key o.seq)
        × Fit used o

  pub Sound-Records : (used : List ℕ) (tx : kv.Txn) → Sound used tx → Records kv objects tx
  Sound-Records used tx sound x v o g d r =
      let (p, d', at, _) = sound x v g r in
      let same : p ≡ o = some-injective _ _ (sym d' ∙ d) in
      at ∙ ap (λ (q : Object). object_key q.bucket q.key q.seq) same

  -- More numbers are handed out.
  pub Sound-more : (used : List ℕ) (n : ℕ) (tx : kv.Txn) → Sound used tx → Sound (n ∷ used) tx
  Sound-more used n tx sound x v g r =
      let (o, d, at, (slash, nul, small, m)) = sound x v g r in
      (o, d, at, (slash, nul, small, inr m))

  -- Fewer records are still sound.
  pub fewer-Sound :
      (used : List ℕ) (tx after : kv.Txn)
      → ((x v : Bytes) → kv.get after x ≡ some v → kv.get tx x ≡ some v)
      → Sound used tx
      → Sound used after
  fewer-Sound used tx after fewer sound x v g r = sound x v (fewer x v g) r

  pub put_record-Sound :
      (used : List ℕ) (tx : kv.Txn) (o : Object)
      → Fit used o
      → Sound used tx
      → Sound used (kv.put tx (object_key o.bucket o.key o.seq) (objects.encode o))
  put_record-Sound used tx o fit sound x v g r =
      let k = object_key o.bucket o.key o.seq in
      elim (Bool-cases (eq_bytes x k)) [
        | inl e ↦
            let at = eq_bytes_sound x k e in
            let value : v ≡ objects.encode o = some-injective _ _ (
              sym g
              ∙ ap (kv.get (kv.put tx k (objects.encode o))) at
              ∙ get-put_same kv tx k (objects.encode o)) in
            (o, ap objects.decode value ∙ objects.decode_encode o, at, fit)
        | inr e ↦ sound x v (ground (arith, kv.get_put tx k (objects.encode o) x)) r
      ]

  -- A null pointer is no record of a version.
  null_key-is_pointer : (b k : Bytes) → has_prefix (null_key b k) (codes "o/") ≡ false
  unfolding null_key has_prefix
  null_key-is_pointer b k = refl

  put_pointer-Sound :
      (used : List ℕ) (tx : kv.Txn) (b k v : Bytes)
      → Sound used tx
      → Sound used (kv.put tx (null_key b k) v)
  put_pointer-Sound used tx b k v sound x w g r = elim (Bool-cases (eq_bytes x (null_key b k))) [
    | inl e ↦ ground (
      arith,
      null_key-is_pointer b k,
      ap (λ y. has_prefix y (codes "o/")) (eq_bytes_sound x (null_key b k) e),
    )
    | inr e ↦ sound x w (ground (arith, kv.get_put tx (null_key b k) v x)) r
  ]

  pub put_object-Sound :
      (used : List ℕ) (tx : kv.Txn) (o : Object)
      → Fit used o
      → Sound used tx
      → Sound used (put_object kv objects tx o).1
  unfolding put_object
  put_object-Sound used tx o fit sound =
      let t1 = (drop_null kv objects tx o.bucket o.key).1 in
      elim (Bool-cases (is_null o)) [
        | inl e ↦ rw e (
            put_record-Sound used (kv.put t1 (null_key o.bucket o.key) (ver_key o.seq)) o fit (
              put_pointer-Sound used t1 o.bucket o.key (ver_key o.seq)
                (fewer-Sound used tx t1 (drop_null-fewer kv objects tx o.bucket o.key) sound)))
        | inr e ↦ rw e (put_record-Sound used tx o fit sound)
      ]

  pub delete_version-Sound :
      (used : List ℕ) (tx : kv.Txn) (o : Object)
      → Sound used tx
      → Sound used (delete_version kv tx o)
  unfolding delete_version
  delete_version-Sound used tx o sound =
      let nk = null_key o.bucket o.key in
      let k = object_key o.bucket o.key o.seq in
      elim (Bool-cases (is_null o)) [
        | inl e ↦ rw e (
            fewer-Sound used tx (kv.delete (kv.delete tx nk) k)
              (λ x v g.
                delete-fewer kv objects tx o.bucket o.key nk x v
                  (delete-fewer kv objects (kv.delete tx nk) o.bucket o.key k x v g))
              sound)
        | inr e ↦ rw e (
            fewer-Sound used tx (kv.delete tx k) (delete-fewer kv objects tx o.bucket o.key k)
              sound)
      ]

  -- A number that was not handed out has no record.
  pub Sound-fresh :
      (used : List ℕ) (tx : kv.Txn) (b k : Bytes) (s : ℕ)
      → Sound used tx
      → NoSlash b
      → s < 18446744073709551616
      → ¬ (In s used)
      → kv.get tx (object_key b k s) ≡ none
  Sound-fresh used tx b k s sound slash small new =
      elim (Option-cases (kv.get tx (object_key b k s))) [
        | inl e ↦ e
        | inr (v, e) ↦
            let (o, _, at, (slash', _, small', m)) =
              sound (object_key b k s) v e (object_key-is_record kv objects tx b k s) in
            let (_, _, same) =
              object_key-injective b o.bucket k o.key s o.seq slash slash' small small' at in
            absurd (new (subst (λ n. In n used) (sym same) m))
      ]
