-- ===== src/Meta/Store/Nulls.antt =====
-- The null version of a key: `PutObject` and `DeleteVersion` keep at most one, which the null pointer
-- names.
use opens.Prelude.{
  ℕ, ◌<◌, ◌≡◌, ◌≢◌, sym, ap, ◌∙◌, inl, inr, false, none, some, ◌++◌, Bytes, eq_bytes, eq_bytes_refl,
  eq_bytes_sound, arith, Bool-cases,
}
use mathlib.Core.Option.{some-injective}
use opens.Kv.{Engine}
use opens.Kv.Reads.{get-put_same, get-put_other, get-delete_same, get-delete_other}
use opens.Meta.Keys.{null_version_id, ver_key, object_prefix, object_key, null_key}
use opens.Meta.Keys.Laws.{object_key-prefix, object_key-null_key, object_key-injective}
use opens.Meta.Types.{Object}
use opens.Meta.Store.{Codec, is_null, drop_null, put_object, delete_version}
use opens.Meta.Store.Dropped.{
  NoSlash, null_key-injective, drop_null-fewer, drop_null-pointers, drop_null-gone, delete-fewer,
}

module _ (kv : Engine) (objects : Codec Object) where
  -- Every null version that is stored is the one that the pointer of its key names.
  abbrev pub OneNull : kv.Txn → Type 0
  OneNull tx =
      (b k : Bytes) (s : ℕ) (o : Object)
      → NoSlash b
      → s < 18446744073709551616
      → kv.get tx (object_key b k s) ≡ some (objects.encode o)
      → o.version_id ≡ null_version_id
      → kv.get tx (null_key b k) ≡ some (ver_key s)

  encode-injective : (o p : Object) → some (objects.encode o) ≡ some (objects.encode p) → o ≡ p
  encode-injective o p e = some-injective _ _ (
      sym (objects.decode_encode o)
      ∙ ap objects.decode (some-injective _ _ e)
      ∙ objects.decode_encode p)

  -- The pointer of another key is read as before.
  other_pointer :
      (tx : kv.Txn) (b k b' k' v w : Bytes) (s : ℕ)
      → null_key b k ≢ null_key b' k'
      → kv.get (kv.put (kv.put tx (null_key b' k') v) (object_key b' k' s) w) (null_key b k)
        ≡ kv.get tx (null_key b k)
  other_pointer tx b k b' k' v w s n =
      get-put_other kv (kv.put tx (null_key b' k') v) (object_key b' k' s) w (null_key b k)
        (λ e. object_key-null_key b' b k' k s (sym e))
      ∙ get-put_other kv tx (null_key b' k') v (null_key b k) n

  keys_differ : (x y : Bytes) → eq_bytes x y ≡ false → x ≢ y
  keys_differ x y h e = ground (arith, eq_bytes_refl x, ap (eq_bytes x) e)

  -- What is read at the key that was just put is the object that was put.
  read_own :
      (t : kv.Txn) (x y : Bytes) (o p : Object)
      → x ≡ y
      → kv.get (kv.put t y (objects.encode o)) x ≡ some (objects.encode p)
      → o ≡ p
  read_own t x y o p e found = encode-injective o p (
      sym (get-put_same kv t y (objects.encode o))
      ∙ ap (kv.get (kv.put t y (objects.encode o))) (sym e)
      ∙ found)

  module _ (tx : kv.Txn) (o : Object) (nb : NoSlash o.bucket) (ho : o.seq < 18446744073709551616)
      (inv : OneNull tx) where
    abbrev own_key : Bytes
    own_key = object_key o.bucket o.key o.seq

    abbrev own_null : Bytes
    own_null = null_key o.bucket o.key

    put_numbered-OneNull : is_null o ≡ false → OneNull (kv.put tx own_key (objects.encode o))
    unfolding is_null
    put_numbered-OneNull i b k s p n h found v =
        elim (Bool-cases (eq_bytes (object_key b k s) own_key)) [
          | inl e ↦
              let same : o ≡ p =
                read_own tx (object_key b k s) own_key o p (eq_bytes_sound _ _ e) found in
              ground (
                arith,
                eq_bytes_refl null_version_id,
                ap (λ w. eq_bytes w null_version_id) (ap (λ (q : Object). q.version_id) same ∙ v),
              )
          | inr e ↦
              get-put_other kv tx own_key (objects.encode o) (null_key b k)
                (λ c. object_key-null_key o.bucket b o.key k o.seq (sym c))
              ∙ inv b k s p n h
                  (sym (
                      get-put_other kv tx own_key (objects.encode o) (object_key b k s)
                        (keys_differ _ _ e))
                    ∙ found)
                  v
        ]

    put_null-OneNull : OneNull (
        kv.put
          (kv.put (drop_null kv objects tx o.bucket o.key).1 own_null (ver_key o.seq))
          own_key
          (objects.encode o))
    put_null-OneNull b k s p n h found v =
        let t1 = (drop_null kv objects tx o.bucket o.key).1 in
        let t2 = kv.put t1 own_null (ver_key o.seq) in
        let t3 = kv.put t2 own_key (objects.encode o) in
        elim (Bool-cases (eq_bytes (object_key b k s) own_key)) [
          | inl e ↦
              let (eb, ek, es) =
                object_key-injective b o.bucket k o.key s o.seq n nb h ho (eq_bytes_sound _ _ e) in
              rw (eb, ek, es)
                (get-put_other kv t2 own_key (objects.encode o) own_null
                    (λ c. object_key-null_key o.bucket o.bucket o.key o.key o.seq (sym c))
                  ∙ get-put_same kv t1 own_null (ver_key o.seq))
          | inr e ↦
              let before : kv.get t1 (object_key b k s) ≡ some (objects.encode p) =
                sym (
                  get-put_other kv t2 own_key (objects.encode o) (object_key b k s)
                    (keys_differ _ _ e)
                  ∙ get-put_other kv t1 own_null (ver_key o.seq) (object_key b k s)
                      (object_key-null_key b o.bucket k o.key s))
                ∙ found in
              let pointer : kv.get tx (null_key b k) ≡ some (ver_key s) =
                inv b k s p n h
                  (drop_null-fewer kv objects tx o.bucket o.key (object_key b k s)
                    (objects.encode p) before)
                  v in
              elim (Bool-cases (eq_bytes (null_key b k) own_null)) [
                | inl f ↦
                    let (eb, ek) =
                      null_key-injective b o.bucket k o.key n nb (eq_bytes_sound _ _ f) in
                    let gone : kv.get t1 (object_key b k s) ≡ none =
                      rw (eb, ek)
                        (drop_null-gone kv objects tx o.bucket o.key s (rw (eb, ek) at pointer)) in
                    ground (arith, gone, before)
                | inr f ↦
                    other_pointer t1 b k o.bucket o.key (ver_key o.seq) (objects.encode o) o.seq
                      (keys_differ _ _ f)
                    ∙ drop_null-pointers kv objects tx o.bucket o.key b k
                    ∙ pointer
              ]
        ]

    -- If each null version that is stored is the one that the null pointer of its key names, so that a
    -- key has at most one, this is still so behind PutObject, for an object whose bucket has no slash
    -- in its name and whose sequence number fits 64 bits.
    pub put_object-OneNull : OneNull (put_object kv objects tx o).1
    unfolding put_object
    put_object-OneNull = elim (Bool-cases (is_null o)) [
      | inl e ↦ rw e put_null-OneNull
      | inr e ↦ rw e (put_numbered-OneNull e)
    ]

    delete_numbered-OneNull : OneNull (kv.delete tx own_key)
    delete_numbered-OneNull b k s p n h found v =
        get-delete_other kv tx own_key (null_key b k)
          (λ c. object_key-null_key o.bucket b o.key k o.seq (sym c))
        ∙ inv b k s p n h
            (delete-fewer kv objects tx b k own_key (object_key b k s) (objects.encode p) found) v

    -- Versions of one key with the same number digits have the same record key.
    same_digits :
        (k s : Bytes) (n m : ℕ) → ver_key n ≡ ver_key m → object_key k s n ≡ object_key k s m
    same_digits k s n m e =
        object_key-prefix k s n ∙ ap (λ d. object_prefix k s ++ d) e ∙ sym (object_key-prefix k s m)

    delete_null-OneNull :
        o.version_id ≡ null_version_id
        → kv.get tx own_key ≡ some (objects.encode o)
        → OneNull (kv.delete (kv.delete tx own_null) own_key)
    delete_null-OneNull i stored b k s p n h found v =
        let t1 = kv.delete tx own_null in
        let kept : kv.get t1 (object_key b k s) ≡ some (objects.encode p) =
          delete-fewer kv objects t1 b k own_key (object_key b k s) (objects.encode p) found in
        let pointer : kv.get tx (null_key b k) ≡ some (ver_key s) =
          inv b k s p n h
            (delete-fewer kv objects tx b k own_null (object_key b k s) (objects.encode p) kept)
            v in
        elim (Bool-cases (eq_bytes (null_key b k) own_null)) [
          | inl f ↦
              let (eb, ek) = null_key-injective b o.bucket k o.key n nb (eq_bytes_sound _ _ f) in
              let digits : ver_key s ≡ ver_key o.seq =
                some-injective _ _
                  (sym (rw (eb, ek) at pointer) ∙ inv o.bucket o.key o.seq o nb ho stored i) in
              let own : object_key b k s ≡ own_key =
                rw (eb, ek) (same_digits o.bucket o.key s o.seq digits) in
              ground (
                arith,
                found,
                ap (kv.get (kv.delete t1 own_key)) own,
                get-delete_same kv t1 own_key,
              )
          | inr f ↦
              get-delete_other kv t1 own_key (null_key b k)
                (λ c. object_key-null_key o.bucket b o.key k o.seq (sym c))
              ∙ get-delete_other kv tx own_null (null_key b k) (keys_differ _ _ f)
              ∙ pointer
        ]

    -- If each null version that is stored is the one that the null pointer of its key names, this is
    -- still so behind DeleteVersion, for a version that is stored, whose bucket has no slash in its
    -- name and whose sequence number fits 64 bits.
    pub delete_version-OneNull :
        kv.get tx own_key ≡ some (objects.encode o) → OneNull (delete_version kv tx o)
    unfolding delete_version is_null
    delete_version-OneNull stored = elim (Bool-cases (eq_bytes o.version_id null_version_id)) [
      | inl e ↦ rw e (delete_null-OneNull (eq_bytes_sound _ _ e) stored)
      | inr e ↦ rw e delete_numbered-OneNull
    ]
