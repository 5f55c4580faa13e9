-- ===== src/Meta/Uploads/Laws.antt =====
-- internal/meta/store.go: DeleteUpload leaves nothing of the upload behind.
use opens.Prelude.{
  ◌≡◌, ◌≢◌, refl, sym, ap, ◌∙◌, inl, inr, pos, true, false, none, some, List, [], ◌∷◌, Bytes, In,
  has_prefix, has_prefix-append, eq_bytes, arith, Option-cases, Bool-cases,
}
use mathlib.Core.Option.{some-injective}
use opens.Kv.{Engine}
use opens.Kv.Reads.{get-delete_same, get-delete_other}
use opens.Meta.Keys.{part_prefix, upload_key, upload_id_key}
use opens.Meta.Types.{Part, Upload}
use opens.Meta.Store.{Codec}
use opens.Meta.Scan.{Scanned, done, broken, panicked, endless}
use opens.Meta.Collect.Laws.{Exactly, each-Exactly}
use opens.Meta.Uploads.{part_key, list_parts, delete_parts, delete_upload}

module _ (kv : Engine) (parts : Codec Part) where
  -- The records of the parts of an upload are under the numbers that they hold.
  abbrev pub Numbered : kv.Txn → Bytes → Bytes → Type 0
  Numbered tx bucket upload_id =
      (x v : Bytes)
      → kv.get tx x ≡ some v
      → has_prefix x (part_prefix bucket upload_id) ≡ true
      → (p : Part) × (parts.decode v ≡ some p) × (x ≡ part_key bucket upload_id p.number)

  delete_fewer :
      (tx : kv.Txn) (k x v : Bytes)
      → kv.get (kv.delete tx k) x ≡ some v
      → (kv.get tx x ≡ some v) × (x ≢ k)
  delete_fewer tx k x v h = elim (Bool-cases (eq_bytes x k)) [
    | inl e ↦ ground (arith, kv.get_delete tx k x)
    | inr e ↦ (
      ground (arith, kv.get_delete tx k x),
      λ s. ground (arith, get-delete_same kv tx x, ap (λ z. kv.get (kv.delete tx z) x) s),
    )
  ]

  -- What is left behind the loop over parts was there, and is none of them.
  delete_parts-fewer :
      (bucket upload_id : Bytes) (ps : List Part) (tx : kv.Txn) (x v : Bytes)
      → kv.get (delete_parts kv parts bucket upload_id ps tx) x ≡ some v
      → (kv.get tx x ≡ some v) × ((p : Part) → In p ps → x ≢ part_key bucket upload_id p.number)
  unfolding delete_parts
  delete_parts-fewer bucket upload_id [] tx x v h = (h, λ p m. absurd m)
  delete_parts-fewer bucket upload_id (q ∷ ps) tx x v h =
      let k = part_key bucket upload_id q.number in
      let (g, others) = delete_parts-fewer bucket upload_id ps (kv.delete tx k) x v h in
      let (there, n) = delete_fewer tx k x v g in
      (
        there,
        λ p m. elim m [
          | inl e ↦ λ s. n (s ∙ ap (λ (r : Part). part_key bucket upload_id r.number) (sym e))
          | inr t ↦ others p t
        ],
      )

  delete_parts-kept :
      (bucket upload_id : Bytes) (ps : List Part) (tx : kv.Txn) (x : Bytes)
      → has_prefix x (part_prefix bucket upload_id) ≡ false
      → kv.get (delete_parts kv parts bucket upload_id ps tx) x ≡ kv.get tx x
  unfolding delete_parts
  delete_parts-kept bucket upload_id [] tx x h = refl
  delete_parts-kept bucket upload_id (p ∷ ps) tx x h =
      delete_parts-kept bucket upload_id ps (kv.delete tx (part_key bucket upload_id p.number)) x h
      ∙ get-delete_other kv tx (part_key bucket upload_id p.number) x (λ e.
        ground
          (arith, part_key-has_prefix p, ap (λ y. has_prefix y (part_prefix bucket upload_id)) e))
    where
      part_key-has_prefix :
          (q : Part)
          → has_prefix (part_key bucket upload_id q.number) (part_prefix bucket upload_id) ≡ true
      part_key-has_prefix q = unfold part_key in has_prefix-append (part_prefix bucket upload_id) _

  -- What DeleteUpload returns and leaves.
  pub Gone : kv.Txn → Upload → Scanned (List Part × kv.Txn) → Type 0
  Gone tx u (done (ps, after)) =
      ((x v : Bytes)
        → kv.get tx x ≡ some v
        → has_prefix x (part_prefix u.bucket u.upload_id) ≡ true
        → (p : Part) × (parts.decode v ≡ some p) × In p ps)
      × ((x : Bytes)
          → has_prefix x (part_prefix u.bucket u.upload_id) ≡ true
          → kv.get after x ≡ none)
      × (kv.get after (upload_id_key u.bucket u.upload_id) ≡ none)
      × (kv.get after (upload_key u.bucket u.key u.upload_id) ≡ none)
      × ((x : Bytes)
          → has_prefix x (part_prefix u.bucket u.upload_id) ≡ false
          → x ≢ upload_id_key u.bucket u.upload_id
          → x ≢ upload_key u.bucket u.key u.upload_id
          → kv.get after x ≡ kv.get tx x)
  Gone tx u (broken e) = ⊥
  Gone tx u panicked = ⊥
  Gone tx u endless = ⊥

  list_parts-Exactly :
      (tx : kv.Txn) (bucket upload_id : Bytes)
      → Exactly kv parts tx
          (part_prefix bucket upload_id)
          (list_parts kv parts tx bucket upload_id (pos 0) (pos 0))
  unfolding list_parts
  list_parts-Exactly tx bucket upload_id = each-Exactly kv parts tx (part_prefix bucket upload_id)

  module _ (tx : kv.Txn) (u : Upload) (numbered : Numbered tx u.bucket u.upload_id) where
    abbrev below_parts : Bytes
    below_parts = part_prefix u.bucket u.upload_id

    without_parts : List Part → kv.Txn
    without_parts ps = delete_parts kv parts u.bucket u.upload_id ps tx

    abbrev index : Bytes
    index = upload_id_key u.bucket u.upload_id

    abbrev own : Bytes
    own = upload_key u.bucket u.key u.upload_id

    abbrev cleared : List Part → kv.Txn
    cleared ps = kv.delete (kv.delete (without_parts ps) index) own

    no_parts_left :
        (ps : List Part)
        → Exactly kv parts tx below_parts (done ps)
        → (x : Bytes) → has_prefix x below_parts ≡ true
        → kv.get (cleared ps) x ≡ none
    unfolding Exactly without_parts
    no_parts_left ps (_, all) x h = elim (Option-cases (kv.get (cleared ps) x)) [
      | inl e ↦ e
      | inr (v, e) ↦
          let (e', _) = delete_fewer (kv.delete (without_parts ps) index) own x v e in
          let (e'', _) = delete_fewer (without_parts ps) index x v e' in
          let (g, others) = delete_parts-fewer u.bucket u.upload_id ps tx x v e'' in
          let (p, d, m) = all x v g h in
          let (q, d', at) = numbered x v g h in
          let same : q ≡ p = some-injective _ _ (sym d' ∙ d) in
          absurd (others p m (at ∙ ap (λ (r : Part). part_key u.bucket u.upload_id r.number) same))
    ]

    gone :
        (r : Scanned (List Part))
        → Exactly kv parts tx below_parts r
        → Gone tx u (elim r [
          | broken e ↦ broken e
          | panicked ↦ panicked
          | endless ↦ endless
          | done ps ↦ done (ps, cleared ps)
        ])
    unfolding Exactly Gone without_parts
    gone (done ps) e = (
      e.1,
      no_parts_left ps e,
      own_gone ps,
      get-delete_same kv (kv.delete (without_parts ps) index) own,
      λ x h ni no.
          get-delete_other kv (kv.delete (without_parts ps) index) own x no
          ∙ get-delete_other kv (without_parts ps) index x ni
          ∙ delete_parts-kept u.bucket u.upload_id ps tx x h,
    )
      where
        own_gone : (qs : List Part) → kv.get (cleared qs) index ≡ none
        own_gone qs = elim (Option-cases (kv.get (cleared qs) index)) [
          | inl z ↦ z
          | inr (v, z) ↦
              let (z', _) = delete_fewer (kv.delete (without_parts qs) index) own index v z in
              absurd ((delete_fewer (without_parts qs) index index v z').1 refl)
        ]
    gone (broken _) (_, (x, v, g, h, undecoded)) = let (p, d, _) = numbered x v g h in ground arith
    gone panicked e = absurd e
    gone endless e = absurd e

    -- If the records of an upload's parts are under the numbers that they hold, DeleteUpload returns all of
    -- the parts, leaves no part, no index and no record of the upload, and changes nothing else.
    pub delete_upload-Gone : Gone tx u (delete_upload kv parts tx u)
    unfolding delete_upload without_parts
    delete_upload-Gone =
        gone (list_parts kv parts tx u.bucket u.upload_id (pos 0) (pos 0))
          (list_parts-Exactly tx u.bucket u.upload_id)
