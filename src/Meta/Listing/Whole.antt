-- ===== src/Meta/Listing/Whole.antt =====
-- internal/meta/store.go: ListObjects without a delimiter or a marker, against the map from keys to
-- their newest versions.
pub mod Step
pub mod Laws
use opens.Prelude.{
  ℕ, ◌≤◌, ◌<◌, ◌≡◌, ◌≢◌, ◌⊎◌, refl, sym, ap, subst, ◌∙◌, Bool, true, false, not, Option, none, some,
  [], ◌∷◌, ◌++◌, Bytes, All, In, codes, has_prefix, has_prefix-append, is_nil, arith, Option-cases,
  Bool-cases, inl, inr, option_elim, if_elim, List,
}
use mathlib.Core.Option.{some-injective}
use opens.Prelude.{In-append_cases}
use opens.Kv.{Engine, lt_bytes, prefix_successor}
use opens.Kv.Lex.{
  lt_bytes_irrefl, lt_bytes_asymm, lt_bytes_trans, lt_bytes_connex, has_prefix-lt_bytes,
  has_prefix_between,
}
use opens.Kv.Bounds.{below, prefix_successor-below, has_prefix-prefix_successor}
use opens.Meta.Keys.{
  separator, object_prefix, object_scan_prefix, object_bucket_prefix, object_key, ObjectName,
  split_object_key,
}
use opens.Meta.Keys.Split.{split_object_key-object_key}
use opens.Meta.Keys.Parts.{
  object_scan_prefix-has_prefix, object_scan_prefix-bucket, split_object_key-prefix,
}
use opens.Meta.Types.{Object}
use opens.Meta.Store.{Codec, Result, ok, failed}
use opens.Meta.Latest.{first_with_prefix, get_latest}
use opens.Meta.Latest.Laws.{first_with_prefix-some}
use opens.Meta.Scan.{Scanned, done, broken, panicked, endless, Move, next, jump, leave, first_from}
use opens.Meta.Scan.Laws.{Moves, scan_enough_lem, first_from-some, first_from-none}
use opens.Meta.Listing.{
  ListOptions, ListEntry, ListResult, Listing, collapsed, single, empty_result, page_size, add,
  truncated, jump_to, start_of, latest_step, list_body, list,
}
use opens.Meta.Listing.Forward.{NoSlash, NoNul}
use opens.Meta.Listing.Newest.{
  Coherent, past, past-NoNul, same_object, prefix_successor-object_prefix, get_latest-first,
  first-get_latest, in_bucket, own_prefix,
}

-- How an object is listed.
abbrev pub entry_of : Object → ListEntry
entry_of o = record { object = some o; common_prefix = []; is_latest = true }

pub entry_of-injective : (o p : Object) → entry_of o ≡ entry_of p → o ≡ p
entry_of-injective o p e = some-injective _ _ (ap (λ (x : ListEntry). x.object) e)

module _ (kv : Engine) (objects : Codec Object) (tx : kv.Txn) (bucket : Bytes)
    (opt : ListOptions) where
  -- An object that ListObjects is to list: the newest version of its key, with the prefix, and no
  -- delete marker.
  abbrev pub Live : Object → Type 0
  Live o =
      (get_latest kv objects tx bucket o.key ≡ ok o)
      × (o.delete_marker ≡ false)
      × (has_prefix o.key opt.prefix ≡ true)

  -- Whether an entry is of an object whose record comes before that of another.
  abbrev pub Precedes : ListEntry → ListEntry → Type 0
  Precedes e f =
      (o p : Object)
      → entry_of o ≡ e
      → entry_of p ≡ f
      → lt_bytes (object_key bucket o.key o.seq) (object_key bucket p.key p.seq) ≡ true

  -- The entries are in the order of their records, so none is there twice.
  abbrev pub Ascending : List ListEntry → Type 0
  Ascending [] = Unit
  Ascending (e ∷ es) = ((f : ListEntry) → In f es → Precedes e f) × Ascending es

  Ascending-last :
      (es : List ListEntry) (f : ListEntry)
      → Ascending es
      → ((e : ListEntry) → In e es → Precedes e f)
      → Ascending (es ++ f ∷ [])
  Ascending-last [] f a h = (λ g m. absurd m, tt)
  Ascending-last (e ∷ es) f a h = (
    λ g m. elim (In-append_cases g f es m) [
      | inl old ↦ a.0 g old
      | inr new ↦ subst (Precedes e) new (h e (inl refl))
    ],
    Ascending-last es f a.1 (λ g m. h g (inr m)),
  )

  -- Only live objects are listed, in order, and on a page that is not truncated all of them are.
  pub Whole : Scanned Listing → Type 0
  Whole (done st) =
      ((e : ListEntry) → In e st.res.entries → (o : Object) × (entry_of o ≡ e) × Live o)
      × Ascending st.res.entries
      × (st.res.is_truncated ≡ false → (o : Object) → Live o → In (entry_of o) st.res.entries)
  Whole (broken e) = ⊥
  Whole panicked = ⊥
  Whole endless = ⊥

  abbrev pub scan_prefix : Bytes
  scan_prefix = object_scan_prefix bucket opt.prefix

  -- The loop stands between two keys, and the live objects before are listed.
  pub record UpTo (start : Bytes) (st : Listing) : Type 0 where
    pub stand : Bytes
    pub stand-NoNul : NoNul stand
    pub at : start ≡ object_scan_prefix bucket stand
    pub not_before : lt_bytes start scan_prefix ≡ false
    pub open_page : st.res.is_truncated ≡ false
    pub sound : (e : ListEntry) → In e st.res.entries → (o : Object) × (entry_of o ≡ e) × Live o
    pub listed :
        (o : Object)
        → Live o
        → lt_bytes (object_key bucket o.key o.seq) start ≡ true
        → In (entry_of o) st.res.entries
    pub ascending : Ascending st.res.entries
    pub passed :
        (o : Object)
        → In (entry_of o) st.res.entries
        → lt_bytes (object_key bucket o.key o.seq) start ≡ true

  module _ (coherent : Coherent kv objects tx bucket) where
    -- A live object has a record with the scan prefix.
    pub Live-record :
        (o : Object)
        → Live o
        → (v : Bytes) × (kv.get tx (object_key bucket o.key o.seq) ≡ some v)
          × (objects.decode v ≡ some o)
          × (has_prefix (object_key bucket o.key o.seq) scan_prefix ≡ true)
    Live-record o (latest, _, p) =
        let (v, first, d, n, _) = get_latest-first kv objects tx bucket coherent o latest in
        let (h, g, _) =
          first_with_prefix-some kv tx (object_prefix bucket o.key) (object_key bucket o.key o.seq)
            v first in
        (v, g, d, object_scan_prefix-has_prefix bucket o.key opt.prefix _ h p)

    pub at_end :
        (start : Bytes) (st : Listing)
        → UpTo start st
        → first_from kv tx scan_prefix start ≡ none
        → Whole (done st)
    unfolding Whole
    at_end start st u e = (
      u.sound,
      u.ascending,
      λ _ o live.
          let (v, g, _, h) = Live-record o live in
          let x = object_key bucket o.key o.seq in
          elim (Bool-cases (lt_bytes x start)) [
            | inl l ↦ u.listed o live l
            | inr l ↦
                absurd
                  (ground (arith, first_from-none kv tx scan_prefix start x e u.not_before h l))
          ],
    )
