-- ===== src/Meta/Listing/Whole/Step.antt =====
-- internal/meta/store.go: one round of the loop of ListObjects, without a delimiter.
use opens.Prelude.{
  ◌≡◌, ◌⊎◌, refl, sym, ap, subst, ◌∙◌, true, false, some, [], ◌∷◌, ◌++◌, Bytes, In, has_prefix,
  arith, Bool-cases, inl, inr, option_elim, if_elim,
}
use opens.Kv.{Engine, lt_bytes, prefix_successor}
use opens.Kv.Lex.{lt_bytes_asymm, lt_bytes_trans, has_prefix-lt_bytes}
use opens.Kv.Bounds.{prefix_successor-below, has_prefix-prefix_successor}
use opens.Meta.Keys.{object_prefix, object_scan_prefix, object_key}
use opens.Meta.Types.{Object}
use opens.Meta.Store.{Codec, Result, ok, failed}
use opens.Meta.Latest.{get_latest}
use opens.Meta.Scan.{Move, first_from}
use opens.Meta.Scan.Laws.{Moves, first_from-some}
use opens.Meta.Listing.{
  ListOptions, ListEntry, Listing, page_size, add, truncated, jump_to, latest_step,
}
use opens.Meta.Listing.Forward.{NoNul}
use opens.Meta.Listing.Newest.{
  Coherent, past, past-NoNul, same_object, prefix_successor-object_prefix, get_latest-first,
  first-get_latest, own_prefix,
}
use opens.Meta.Listing.Whole.{
  entry_of, entry_of-injective, Live, Precedes, Ascending, Ascending-last, Whole, UpTo, Live-record,
}
use opens.Prelude.{In-append_left, In-append_last, In-append_cases}

ok-injective : (a b : Object) → ok a ≡ ok b → a ≡ b
ok-injective a b e = ap (λ (r : Result Object). elim r [ ok x ↦ x | failed _ ↦ a ]) e

module _ (kv : Engine) (objects : Codec Object) (tx : kv.Txn) (bucket : Bytes) (opt : ListOptions)
    (coherent : Coherent kv objects tx bucket) where
  abbrev scan_prefix : Bytes
  scan_prefix = object_scan_prefix bucket opt.prefix

  module _ (start k v : Bytes) (st : Listing) (u : UpTo kv objects tx bucket opt start st)
      (found : first_from kv tx scan_prefix start ≡ some (k, v)) (o : Object)
      (d : objects.decode v ≡ some o) (at : k ≡ object_key bucket o.key o.seq)
      (nk : NoNul o.key) where
    abbrev behind_key : Bytes
    behind_key = object_scan_prefix bucket (past o.key)

    of_key : has_prefix k (object_prefix bucket o.key) ≡ true
    of_key =
        ap (λ y. has_prefix y (object_prefix bucket o.key)) at
        ∙ own_prefix kv objects tx bucket coherent o.key o.seq

    latest : get_latest kv objects tx bucket o.key ≡ ok o
    latest =
        let (_, a, g, least) = first_from-some kv tx scan_prefix start k v found in
        first-get_latest kv objects tx bucket coherent u.stand k v o u.stand-NoNul nk g d at
          (ap (lt_bytes k) (sym u.at) ∙ a) (λ y l. least y (ap (lt_bytes y) u.at ∙ l))

    -- Between the record and the end of its key there is no live object.
    only-Live :
        (p : Object)
        → Live kv objects tx bucket opt p
        → lt_bytes (object_key bucket p.key p.seq) behind_key ≡ true
        → lt_bytes (object_key bucket p.key p.seq) start ≡ false
        → p ≡ o
    only-Live p live l after =
        let x = object_key bucket p.key p.seq in
        let q = object_prefix bucket o.key in
        let (_, first, _, np', small) = get_latest-first kv objects tx bucket coherent p live.0 in
        let (_, g, _, _) = Live-record kv objects tx bucket opt coherent p live in
        let (_, _, _, least) = first_from-some kv tx scan_prefix start k v found in
        let not_less : lt_bytes x k ≡ false = elim (Bool-cases (lt_bytes x k)) [
          | inl e ↦ absurd (ground (arith, least x after e))
          | inr e ↦ e
        ] in
        let from_prefix : lt_bytes x q ≡ false = elim (Bool-cases (lt_bytes x q)) [
          | inl e ↦ ground (arith, lt_bytes_trans x q k e (has_prefix-lt_bytes k q of_key))
          | inr e ↦ e
        ] in
        let inside : has_prefix x q ≡ true = ground (
          arith,
          prefix_successor-below q x small,
          prefix_successor-object_prefix bucket o.key,
          from_prefix,
        ) in
        let key : p.key ≡ o.key = same_object bucket p.key o.key p.seq np' nk inside in
        ok-injective p o (sym live.0 ∙ ap (get_latest kv objects tx bucket) key ∙ latest)

    -- The jump over the versions of the key goes forward.
    forward : lt_bytes k behind_key ≡ true
    forward =
        has_prefix-prefix_successor (object_prefix bucket o.key) k behind_key of_key
          (prefix_successor-object_prefix bucket o.key)

    later : lt_bytes behind_key scan_prefix ≡ false
    later = elim (Bool-cases (lt_bytes behind_key scan_prefix)) [
      | inr e ↦ e
      | inl e ↦
          let (h, _, _, _) = first_from-some kv tx scan_prefix start k v found in
          ground (
            arith,
            lt_bytes_trans behind_key scan_prefix k e (has_prefix-lt_bytes k scan_prefix h),
            lt_bytes_asymm k behind_key forward,
          )
    ]

    passed_record :
        (p : Object)
        → lt_bytes (object_key bucket p.key p.seq) start ≡ true
        → lt_bytes (object_key bucket p.key p.seq) k ≡ true
    passed_record p l =
        let (_, a, _, _) = first_from-some kv tx scan_prefix start k v found in
        lt_bytes_trans (object_key bucket p.key p.seq) start k l a

    passed_on :
        (p : Object)
        → lt_bytes (object_key bucket p.key p.seq) start ≡ true
        → lt_bytes (object_key bucket p.key p.seq) behind_key ≡ true
    passed_on p l =
        lt_bytes_trans (object_key bucket p.key p.seq) k behind_key (passed_record p l)
          (lt_bytes_asymm k behind_key forward)

    -- The loop stands behind the key, once the object is listed, if it is live.
    advance :
        (st' : Listing)
        → st'.res.is_truncated ≡ false
        → ((e : ListEntry)
            → In e st'.res.entries
            → (p : Object) × (entry_of p ≡ e) × Live kv objects tx bucket opt p)
        → ((e : ListEntry) → In e st.res.entries → In e st'.res.entries)
        → (Live kv objects tx bucket opt o → In (entry_of o) st'.res.entries)
        → Ascending kv objects tx bucket opt st'.res.entries
        → ((p : Object)
            → In (entry_of p) st'.res.entries
            → In (entry_of p) st.res.entries ⊎ (o ≡ p))
        → UpTo kv objects tx bucket opt behind_key st'
    advance st' t sound kept own up others = record {
      stand = past o.key;
      stand-NoNul = past-NoNul o.key nk;
      at = refl;
      not_before = later;
      open_page = t;
      sound = sound;
      listed = λ p live l. elim (Bool-cases (lt_bytes (object_key bucket p.key p.seq) start)) [
        | inl e ↦ kept (entry_of p) (u.listed p live e)
        | inr e ↦
            let same : o ≡ p = sym (only-Live p live l e) in
            subst (λ q. In (entry_of q) st'.res.entries) same
              (own (subst (λ q. Live kv objects tx bucket opt q) (sym same) live))
      ];
      ascending = up;
      passed = λ p m. elim (others p m) [
        | inl old ↦ passed_on p (u.passed p old)
        | inr new ↦
            subst (λ (q : Object). lt_bytes (object_key bucket q.key q.seq) behind_key ≡ true) new
              (ap (λ y. lt_bytes y behind_key) (sym at) ∙ forward)
      ];
    }

    next_last :
        (e : ListEntry) → In e st.res.entries → Precedes kv objects tx bucket opt e (entry_of o)
    next_last e m p q ep eq =
        let there : In (entry_of p) st.res.entries = subst (λ f. In f st.res.entries) (sym ep) m in
        let same : o ≡ q = sym (entry_of-injective q o eq) in
        subst (λ y. lt_bytes (object_key bucket p.key p.seq) y ≡ true)
          (at ∙ ap (λ (r : Object). object_key bucket r.key r.seq) same)
          (passed_record p (u.passed p there))

    -- A page with one more object.
    abbrev WithObject : Listing → Listing → Type 0
    WithObject before after =
        (after.res.entries ≡ before.res.entries ++ entry_of o ∷ [])
        × (after.res.is_truncated ≡ before.res.is_truncated)

    add-WithObject :
        (key version : Bytes) (before after : Listing)
        → add (page_size opt.max_keys) (entry_of o) key version before ≡ some after
        → WithObject before after
    unfolding add
    add-WithObject key version before after h = ground arith

    abbrev Goes : Move Listing → Type 0
    Goes = Moves (UpTo kv objects tx bucket opt) (Whole kv objects tx bucket opt) k

    jump-Goes :
        (st' : Listing)
        → UpTo kv objects tx bucket opt behind_key st'
        → Goes (jump_to (prefix_successor (object_prefix bucket o.key)) [] st')
    unfolding jump_to has_prefix
    jump-Goes st' h = rw (prefix_successor-object_prefix bucket o.key) (forward, h)

    pub latest_step-Goes :
        has_prefix o.key opt.prefix ≡ true
        → Goes (latest_step kv objects tx bucket opt false o.key o st)
    unfolding latest_step truncated Whole
    latest_step-Goes p =
        let st' : Listing = record st { last_key = o.key } in
        if_elim Goes o.delete_marker _ _
          (λ marker. jump-Goes st' (
            advance st' u.open_page u.sound (λ _ m. m) (λ live. ground arith) u.ascending
              (λ p m. inl m)))
          (λ visible.
            option_elim Goes
              (add (page_size opt.max_keys) (entry_of o) o.key st.res.next_version st') _ _
              (λ _. (u.sound, u.ascending, λ t. ground arith))
              (λ more a.
                let (entries, open_page) = add-WithObject o.key st.res.next_version st' more a in
                jump-Goes more (
                  advance more (open_page ∙ u.open_page)
                    (λ e m.
                      elim (In-append_cases e (entry_of o) st.res.entries
                        (subst (In e) entries m)) [
                          | inl old ↦ u.sound e old
                          | inr own ↦ (o, own, (latest, visible, p))
                        ])
                    (λ e m.
                      subst (In e) (sym entries)
                        (In-append_left e st.res.entries (entry_of o ∷ []) m))
                    (λ _.
                      subst (In (entry_of o)) (sym entries)
                        (In-append_last (entry_of o) st.res.entries))
                    (subst (Ascending kv objects tx bucket opt) (sym entries) (
                      Ascending-last kv objects tx bucket opt st.res.entries (entry_of o)
                        u.ascending next_last))
                    (λ q m.
                      elim (In-append_cases (entry_of q) (entry_of o) st.res.entries
                        (subst (In (entry_of q)) entries m)) [
                          | inl old ↦ inl old
                          | inr own ↦ inr (entry_of-injective o q own)
                        ]))))
