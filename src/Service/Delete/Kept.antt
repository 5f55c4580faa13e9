-- ===== src/Service/Delete/Kept.antt =====
-- A record stays as it is while other versions are deleted and put.
use opens.Prelude.{
  ℕ, ◌≡◌, ◌≢◌, sym, ap, ◌∙◌, inl, inr, true, some, ◌++◌, Bytes, eq_bytes_refl, arith, Bool-cases,
}
use mathlib.Core.Option.{some-injective}
use opens.Kv.{Engine}
use opens.Kv.Reads.{get-put_other, get-delete_other}
use opens.Meta.Keys.{null_version_id, ver_key, object_prefix, object_key, null_key}
use opens.Meta.Keys.Laws.{object_key-null_key}
use opens.Meta.Types.{Object}
use opens.Meta.Store.{Codec, ok, is_null, get_version, drop_null, put_object, delete_version}
use opens.Meta.Store.Versions.{decoded-encode}
use opens.Meta.Store.Dropped.{drop_null-cases}
use opens.Service.Delete.Records.{Records, Stored}

module _ (kv : Engine) (objects : Codec Object) (tx : kv.Txn) where
  module _ (b k : Bytes) (s : ℕ) (o : Object)
      (held : kv.get tx (object_key b k s) ≡ some (objects.encode o))
      (records : Records kv objects tx) where
    abbrev pub own_key : Bytes
    own_key = object_key b k s

    same_record :
        (p : Object) → Stored kv objects tx p → own_key ≡ object_key p.bucket p.key p.seq → o ≡ p
    same_record p (x, v, r, g, d) e =
        let at_x : own_key ≡ x = e ∙ sym (records x v p g d r) in
        some-injective _ _ (
          sym (objects.decode_encode o)
          ∙ ap objects.decode (some-injective _ _ (sym held ∙ ap (kv.get tx) at_x ∙ g))
          ∙ d)

    pub delete_version-Kept :
        (p : Object)
        → Stored kv objects tx p
        → o ≢ p
        → kv.get (delete_version kv tx p) own_key ≡ some (objects.encode o)
    unfolding delete_version
    delete_version-Kept p m n =
        let other : own_key ≢ object_key p.bucket p.key p.seq = λ e. n (same_record p m e) in
        let nk = null_key p.bucket p.key in
        elim (Bool-cases (is_null p)) [
          | inl e ↦ rw e (
              get-delete_other kv (kv.delete tx nk) (object_key p.bucket p.key p.seq) own_key other
              ∙ get-delete_other kv tx nk own_key (object_key-null_key b p.bucket k p.key s)
              ∙ held)
          | inr e ↦
              rw e (get-delete_other kv tx (object_key p.bucket p.key p.seq) own_key other ∙ held)
        ]

    named_null :
        (b' k' vk : Bytes)
        → kv.get tx (null_key b' k') ≡ some vk
        → own_key ≡ object_prefix b' k' ++ vk
        → get_version kv objects tx b' k' null_version_id ≡ ok o
    unfolding get_version
    named_null b' k' vk p e = ground (
      arith,
      eq_bytes_refl null_version_id,
      decoded-encode objects (kv.get tx (object_prefix b' k' ++ vk)) o
          (sym (ap (kv.get tx) e) ∙ held),
    )

    drop_null-Kept :
        (b' k' : Bytes)
        → ¬ (get_version kv objects tx b' k' null_version_id ≡ ok o)
        → kv.get (drop_null kv objects tx b' k').1 own_key ≡ some (objects.encode o)
    drop_null-Kept b' k' n = elim (drop_null-cases kv objects tx b' k') [
      | inl (e, _) ↦ ap (λ t. kv.get t own_key) e ∙ held
      | inr (vk, p, e) ↦
          ap (λ t. kv.get t own_key) e
          ∙ get-delete_other kv tx (object_prefix b' k' ++ vk) own_key
              (λ f. n (named_null b' k' vk p f))
          ∙ held
    ]

    pub put_object-Kept :
        (p : Object)
        → own_key ≢ object_key p.bucket p.key p.seq
        → (is_null p ≡ true → ¬ (get_version kv objects tx p.bucket p.key null_version_id ≡ ok o))
        → kv.get (put_object kv objects tx p).1 own_key ≡ some (objects.encode o)
    unfolding put_object
    put_object-Kept p n h =
        let pk = object_key p.bucket p.key p.seq in
        let nk = null_key p.bucket p.key in
        let t1 = (drop_null kv objects tx p.bucket p.key).1 in
        elim (Bool-cases (is_null p)) [
          | inl e ↦ rw e (
              get-put_other kv (kv.put t1 nk (ver_key p.seq)) pk (objects.encode p) own_key n
              ∙ get-put_other kv t1 nk (ver_key p.seq) own_key
                  (object_key-null_key b p.bucket k p.key s)
              ∙ drop_null-Kept p.bucket p.key (h e))
          | inr e ↦ rw e (get-put_other kv tx pk (objects.encode p) own_key n ∙ held)
        ]
