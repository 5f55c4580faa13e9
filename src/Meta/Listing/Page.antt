-- ===== src/Meta/Listing/Page.antt =====
-- internal/meta/store.go: a listing ends, and its page is not longer than what was asked for.
use opens.Prelude.{
  ℕ, ◌≤◌, ◌≡◌, ◌⊎◌, refl, Bool, true, false, none, some, [], ◌∷◌, ◌++◌, Bytes, has_prefix, length,
  length-append, arith, Bool-cases, inl, inr, leb, if◌then◌else◌, option_elim, if_elim,
}
use opens.Kv.{Engine, prefix_successor}
use opens.Meta.Keys.{object_prefix, object_scan_prefix, object_bucket_prefix, split_object_key}
use opens.Meta.Keys.Parts.{
  object_scan_prefix-has_prefix, split_object_key-has_prefix, split_object_key-prefix,
}
use opens.Meta.Types.{Object}
use opens.Meta.Store.{Codec, undecodable}
use opens.Meta.Scan.{Scanned, done, broken, panicked, endless, Move, next, leave}
use opens.Meta.Scan.Laws.{Moves, scan_enough_lem, first_from-some}
use opens.Meta.Listing.{
  ListOptions, ListEntry, Listing, Collapsed, single, outside, under, empty_result, page_size,
  collapsed, add, truncated, jump_to, has_live_key, start_of, skip_prefix, prefix_step,
  version_step, latest_step, list_body, list,
}
use opens.Meta.Listing.Forward.{
  NoSlash, NoNul, Falls, collapsed-Falls, jump_to-Moves, AtKey, Ended, has_live_key-Ended,
}

module _ (kv : Engine) (objects : Codec Object) (tx : kv.Txn) (bucket : Bytes)
    (nb : NoSlash bucket) where
  module _ (opt : ListOptions) (versions : Bool) (np : NoNul opt.prefix) where
    abbrev pub size : ℕ
    size = page_size opt.max_keys

    -- The page so far, in the loop.
    abbrev Open : Listing → Type 0
    Open st = (length st.res.entries ≤ size) × (st.res.is_truncated ≡ false)

    -- The page that is returned.
    pub Page : Scanned Listing → Type 0
    Page (done st) =
        (length st.res.entries ≤ size) × (st.res.is_truncated ≡ true → length st.res.entries ≡ size)
    Page (broken e) = e ≡ undecodable
    Page panicked = ⊥
    Page endless = ⊥

    Open-Page : (st : Listing) → Open st → Page (done st)
    unfolding Page
    Open-Page st h = (h.0, λ e. ground arith)

    add-Open :
        (entry : ListEntry) (key version : Bytes) (st : Listing)
        → Open st
        → ((add size entry key version st ≡ none) × Page (truncated st))
          ⊎ ((st' : Listing) × (add size entry key version st ≡ some st') × Open st')
    unfolding add truncated Page
    add-Open entry key version st h = elim (Bool-cases (leb size (length st.res.entries))) [
      | inl b ↦ inl (ground arith, (h.0, λ _. ground arith))
      | inr b ↦ inr (
        record {
          res = record {
            entries = st.res.entries ++ entry ∷ [];
            is_truncated = st.res.is_truncated;
            next_key = key;
            next_version = version;
          };
          last_key = st.last_key;
        },
        rw b refl,
        (ground (arith, length-append st.res.entries (entry ∷ [])), h.1),
      )
    ]

    abbrev Goes : Bytes → Move Listing → Type 0
    Goes = Moves (λ _ st. Open st) Page

    -- Behind `add`, the loop goes on with one more entry, or it ends with a full page.
    add-Goes :
        (entry : ListEntry) (key version k : Bytes) (st : Listing) (f : Listing → Move Listing)
        → Open st
        → ((st' : Listing) → Open st' → Goes k (f st'))
        → Goes k (elim (add size entry key version st) [
          | none ↦ leave (truncated st)
          | some st' ↦ f st'
        ])
    add-Goes entry key version k st f h g =
        option_elim (Goes k) (add size entry key version st) _ _
          (λ e. full (add-Open entry key version st h) e)
          (λ st' e. g st' (more (add-Open entry key version st h) e))
      where
        full :
            ((add size entry key version st ≡ none) × Page (truncated st))
              ⊎ ((st' : Listing) × (add size entry key version st ≡ some st') × Open st')
            → add size entry key version st ≡ none
            → Page (truncated st)
        full (inl (_, p)) e = p
        full (inr (_, a, _)) e = ground arith

        more :
            {st' : Listing}
            → ((add size entry key version st ≡ none) × Page (truncated st))
              ⊎ ((st' : Listing) × (add size entry key version st ≡ some st') × Open st')
            → add size entry key version st ≡ some st'
            → Open st'
        more (inl (a, _)) e = ground arith
        more (inr (_, a, o)) e = ground arith

    skip_prefix-Goes :
        (k cp : Bytes) (st : Listing)
        → has_prefix k (object_scan_prefix bucket cp) ≡ true
        → Open st
        → Goes k (skip_prefix kv objects tx bucket opt versions cp st)
    unfolding skip_prefix
    skip_prefix-Goes k cp st h o =
        jump_to-Moves (λ _ s. Open s) Page (object_scan_prefix bucket cp) k
          (object_bucket_prefix bucket) st h (Open-Page st o) (λ _ _. o)

    latest_step-Goes :
        (k key : Bytes) (o : Object) (st : Listing)
        → AtKey bucket k key
        → Open st
        → Goes k (latest_step kv objects tx bucket opt versions key o st)
    unfolding latest_step
    latest_step-Goes k key o st at h =
        let go : (s : Listing)
            → Open s
            → Goes k (jump_to (prefix_successor (object_prefix bucket key)) [] s) =
          λ s q.
            jump_to-Moves (λ _ x. Open x) Page (object_prefix bucket key) k [] s at (Open-Page s q)
              (λ _ _. q) in
        if_elim (Goes k) o.delete_marker _ _ (λ _. go (record st { last_key = key }) h)
          (λ _. add-Goes _ _ _ k (record st { last_key = key }) _ h go)

    version_step-Goes :
        (k key : Bytes) (o : Object) (st : Listing)
        → Open st
        → Goes k (version_step kv objects tx bucket opt versions key o st)
    unfolding version_step
    version_step-Goes k key o st h =
        add-Goes _ _ _ k (record st { last_key = key }) next h (λ _ q. q)

    Ended-true : Ended (done true)
    unfolding Ended
    Ended-true = tt

    prefix_listed-Ended :
        (cp : Bytes) → Ended (if versions then done true else has_live_key kv objects tx bucket cp)
    prefix_listed-Ended cp =
        if_elim Ended versions (done true) _ (λ _. Ended-true)
          (λ _. has_live_key-Ended kv objects tx bucket nb cp)

    prefix_step-Goes :
        (k cp : Bytes) (st : Listing)
        → has_prefix k (object_scan_prefix bucket cp) ≡ true
        → Open st
        → Goes k (prefix_step kv objects tx bucket opt versions cp st)
    unfolding prefix_step Ended
    prefix_step-Goes k cp st h o =
        listed (if versions then done true else has_live_key kv objects tx bucket cp)
          (prefix_listed-Ended cp)
      where
        listed :
            (r : Scanned Bool)
            → Ended r
            → Goes k (elim r [
              | broken e ↦ leave (broken e)
              | panicked ↦ leave panicked
              | endless ↦ leave endless
              | done false ↦ skip_prefix kv objects tx bucket opt versions cp st
              | done true ↦
                  elim (add size
                    (record { object = none; common_prefix = cp; is_latest = false })
                    cp
                    []
                    st) [
                      | none ↦ leave (truncated st)
                      | some st' ↦ skip_prefix kv objects tx bucket opt versions cp st'
                    ]
            ])
        listed (done false) e = skip_prefix-Goes k cp st h o
        listed (done true) e = add-Goes _ cp [] k st _ o (λ s. skip_prefix-Goes k cp s h)
        listed (broken _) e = absurd e
        listed panicked e = absurd e
        listed endless e = absurd e

    -- What a record does, by what the delimiter does with its key.
    collapsed-Goes :
        (k v key : Bytes) (st : Listing) (c : Collapsed)
        → AtKey bucket k key
        → Open st
        → Falls key c
        → Goes k (elim c [
          | outside ↦ leave panicked
          | under cp ↦ prefix_step kv objects tx bucket opt versions cp st
          | single ↦ elim (objects.decode v) [
            | none ↦ leave (broken undecodable)
            | some o ↦
                if versions
                then version_step kv objects tx bucket opt versions key o st
                else latest_step kv objects tx bucket opt versions key o st
          ]
        ])
    unfolding Falls Page
    collapsed-Goes k v key st outside at h f = absurd f
    collapsed-Goes k v key st (under cp) at h f =
        prefix_step-Goes k cp st (object_scan_prefix-has_prefix bucket key cp k at f) h
    collapsed-Goes k v key st single at h f =
        option_elim (Goes k) (objects.decode v) _ _ (λ _. refl)
          (λ o _.
            if_elim (Goes k) versions _ _ (λ _. version_step-Goes k key o st h)
              (λ _. latest_step-Goes k key o st at h))

    list_body-Goes :
        (k v : Bytes) (st : Listing)
        → has_prefix k (object_scan_prefix bucket opt.prefix) ≡ true
        → Open st
        → Goes k (list_body kv objects tx bucket opt versions k v st)
    unfolding list_body
    list_body-Goes k v st h o =
        option_elim (Goes k) (split_object_key k) _ _ (λ _. o)
          (λ name e.
            collapsed-Goes k v name.key st (collapsed opt name.key)
              (split_object_key-has_prefix bucket opt.prefix k name nb h e) o
              (collapsed-Falls opt name.key
                (split_object_key-prefix bucket opt.prefix k name nb h e np)))

    empty-Open : Open (record { res = empty_result; last_key = [] })
    empty-Open = (omega arith, refl)

    -- ListObjects and ListVersions of a bucket with no slash in its name, for a prefix with no NUL byte, end
    -- with a page or with the error of a record that cannot be decoded, and never panic. The page has at
    -- most as many entries as were asked for, 1000 if the number is not positive, and exactly as many if it
    -- is truncated.
    pub list-Page : Page (list kv objects tx bucket opt versions)
    unfolding list
    list-Page =
        let st : Listing = record { res = empty_result; last_key = [] } in
        option_elim Page (start_of kv objects tx bucket opt versions) _ _
          (λ _. Open-Page st empty-Open)
          (λ start _.
            scan_enough_lem kv tx (object_scan_prefix bucket opt.prefix)
              (list_body kv objects tx bucket opt versions) (λ _ s. Open s) Page
              (λ _ s o _. Open-Page s o)
              (λ at k v s o found.
                list_body-Goes k v s
                  (first_from-some kv tx (object_scan_prefix bucket opt.prefix) at k v found).0 o)
              start st empty-Open)
