-- ===== src/Service/Update/Own.antt =====
-- A version that is read by bucket and key has its record under this bucket and key.
use opens.Prelude.{
  ℕ, ◌≡◌, refl, sym, ap, ◌∙◌, inl, inr, true, some, [], ◌∷◌, ◌++◌, Bytes, codes, has_prefix,
  has_prefix-append, has_prefix_sound, eq_bytes, List, none, subst, arith, Bool-cases, Option-cases,
}
use mathlib.Core.Option.{some-injective}
use opens.Kv.{Engine}
use opens.Meta.Hex.{hex}
use opens.Meta.Hex.Laws.{hex_printable}
use opens.Meta.Keys.{
  separator, complement, null_version_id, ver_key, object_prefix, object_key, null_key,
  seq_from_version_id,
}
use opens.Meta.Keys.Laws.{object_key-prefix}
use opens.Meta.Keys.Parts.{has_prefix-common}
use opens.Meta.Types.{Object}
use opens.Meta.Store.{Codec, ok, decoded, get_version}
use opens.Meta.Store.Dropped.{NoSlash}
use opens.Meta.Latest.{first_with_prefix, get_latest}
use opens.Meta.Latest.Laws.{first_with_prefix-some}
use opens.Meta.Listing.Forward.{NoNul}
use opens.Meta.Listing.Newest.{no_separator}
use opens.Service.Delete.Records.{
  decoded-found, of_version-found, object_prefix-is_record, object_key-is_record,
}
use opens.Service.Sound.{Sound, Fit}

-- Of two texts behind which a byte ends a key, one is a prefix of the other only if they are the same.
same_key :
    (a b d : Bytes)
    → NoNul a
    → NoNul d
    → has_prefix (a ++ separator ∷ d) (b ++ separator ∷ []) ≡ true
    → a ≡ b
unfolding has_prefix
same_key [] [] d n m h = refl
same_key [] (y ∷ b) d n m h = ground (arith, no_separator d b m)
same_key (x ∷ a) [] d n m h = ground arith
same_key (x ∷ a) (y ∷ b) d n m h = ground (arith, same_key a b d n.1 m)

same_bucket_name :
    (a b s t : Bytes)
    → NoSlash a
    → NoSlash b
    → has_prefix (a ++ b'/' ∷ s) (b ++ b'/' ∷ t) ≡ true
    → (a ≡ b) × (has_prefix s t ≡ true)
unfolding has_prefix
same_bucket_name [] [] s t n m h = (refl, ground arith)
same_bucket_name [] (y ∷ b) s t n m h = ground arith
same_bucket_name (x ∷ a) [] s t n m h = ground arith
same_bucket_name (x ∷ a) (y ∷ b) s t n m h =
    let (e, r) = same_bucket_name a b s t n.1 m.1 (ground arith) in (ground arith, r)

-- The record of an object that lies below the prefix of a bucket and key is of that bucket and key.
object_key-at :
    (b b' k k' : Bytes) (s : ℕ)
    → NoSlash b
    → NoSlash b'
    → NoNul k
    → has_prefix (object_key b k s) (object_prefix b' k') ≡ true
    → (b ≡ b') × (k ≡ k')
unfolding object_key object_prefix ver_key
object_key-at b b' k k' s n n' nk h =
    let d = hex 16 (complement s) in
    let (eb, r) = same_bucket_name b b' (k ++ separator ∷ d) (k' ++ separator ∷ []) n n' (
      sym (
        has_prefix-common (codes "o/") (b ++ b'/' ∷ (k ++ separator ∷ d))
          (b' ++ b'/' ∷ (k' ++ separator ∷ [])))
      ∙ h) in
    (eb, same_key k k' d nk (hex_printable 16 (complement s)) r)

module _ (kv : Engine) (objects : Codec Object) (used : List ℕ) (tx : kv.Txn)
    (sound : Sound kv objects used tx) (b k : Bytes) (slash : NoSlash b) where
  -- The object is of the bucket and key, is stored under its number, and can be stored.
  abbrev pub Own : Object → Type 0
  Own o =
      (o.bucket ≡ b)
      × (o.key ≡ k)
      × ((v : Bytes) × (kv.get tx (object_key o.bucket o.key o.seq) ≡ some v)
          × (objects.decode v ≡ some o))
      × Fit used o

  below-Own :
      (x v : Bytes) (o : Object)
      → has_prefix x (object_prefix b k) ≡ true
      → kv.get tx x ≡ some v
      → objects.decode v ≡ some o
      → has_prefix x (codes "o/") ≡ true
      → Own o
  below-Own x v o h g d r =
      let (p, d', at, fit) = sound x v g r in
      let same : p ≡ o = some-injective _ _ (sym d' ∙ d) in
      let at' : x ≡ object_key o.bucket o.key o.seq =
        at ∙ ap (λ (q : Object). object_key q.bucket q.key q.seq) same in
      let fit' : Fit used o = subst (λ q. Fit used q) same fit in
      let (eb, ek) =
        object_key-at o.bucket b o.key k o.seq fit'.0 slash fit'.1
          (ap (λ y. has_prefix y (object_prefix b k)) (sym at') ∙ h) in
      (eb, ek, (v, ap (kv.get tx) (sym at') ∙ g, d), fit')

  pub get_latest-Own : (o : Object) → get_latest kv objects tx b k ≡ ok o → Own o
  unfolding get_latest
  get_latest-Own o h = elim (Option-cases (first_with_prefix kv tx (object_prefix b k))) [
    | inl e ↦ let (v, g, d) = decoded-found objects none o (ground arith) in ground arith
    | inr ((x, w), e) ↦
        let (p, g, _) = first_with_prefix-some kv tx (object_prefix b k) x w e in
        let (v, f, d) = decoded-found objects (some w) o (ground arith) in
        below-Own x w o p g (ap objects.decode (some-injective _ _ f) ∙ d) (
          ap (λ y. has_prefix y (codes "o/")) (has_prefix_sound x (object_prefix b k) p)
          ∙ object_prefix-is_record kv objects tx b k _)
  ]

  pub get_version-Own :
      (vid : Bytes) (o : Object) → get_version kv objects tx b k vid ≡ ok o → Own o
  unfolding get_version
  get_version-Own vid o h = elim (Bool-cases (eq_bytes vid null_version_id)) [
    | inl n ↦ elim (Option-cases (kv.get tx (null_key b k))) [
      | inl e ↦ ground arith
      | inr (vk, e) ↦
          let (v, g, d) =
            decoded-found objects (kv.get tx (object_prefix b k ++ vk)) o (ground arith) in
          below-Own (object_prefix b k ++ vk) v o (has_prefix-append (object_prefix b k) vk) g d
            (object_prefix-is_record kv objects tx b k vk)
    ]
    | inr n ↦ elim (Option-cases (seq_from_version_id vid)) [
      | inl e ↦ ground arith
      | inr (s, e) ↦
          let (v, g, d) = decoded-found objects (kv.get tx (object_key b k s)) o (
            of_version-found vid (decoded objects (kv.get tx (object_key b k s))) o
              (ground arith)) in
          below-Own (object_key b k s) v o
            (ap (λ y. has_prefix y (object_prefix b k)) (object_key-prefix b k s)
              ∙ has_prefix-append (object_prefix b k) (ver_key s))
            g d (object_key-is_record kv objects tx b k s)
    ]
  ]
