-- ===== src/Meta/Listing/Whole/Laws.antt =====
-- internal/meta/store.go: a whole listing holds exactly the live objects, in order.
use opens.Prelude.{
  ◌≡◌, refl, sym, ap, subst, ◌∙◌, true, false, some, [], Bytes, is_nil, arith, option_elim,
}
use mathlib.Core.Option.{some-injective}
use opens.Kv.{Engine}
use opens.Kv.Lex.{lt_bytes_irrefl, has_prefix-lt_bytes}
use opens.Meta.Keys.{object_scan_prefix, object_key, ObjectName, split_object_key}
use opens.Meta.Keys.Split.{split_object_key-object_key}
use opens.Meta.Keys.Parts.{object_scan_prefix-bucket, split_object_key-prefix}
use opens.Meta.Types.{Object}
use opens.Meta.Store.{Codec}
use opens.Meta.Scan.{first_from}
use opens.Meta.Scan.Laws.{Moves, scan_enough_lem, first_from-some}
use opens.Meta.Listing.{
  ListOptions, Listing, collapsed, empty_result, start_of, latest_step, list_body, list,
}
use opens.Meta.Listing.Forward.{NoSlash, NoNul}
use opens.Meta.Listing.Newest.{Coherent}
use opens.Meta.Listing.Whole.{Whole, UpTo, Live-record, at_end}
use opens.Meta.Listing.Whole.Step.{latest_step-Goes}

module _ (kv : Engine) (objects : Codec Object) (tx : kv.Txn) (bucket : Bytes) (opt : ListOptions)
    (coherent : Coherent kv objects tx bucket) (nb : NoSlash bucket) (np : NoNul opt.prefix)
    (nd : is_nil opt.delimiter ≡ true) (ns : is_nil opt.start_after ≡ true) where
  abbrev scan_prefix : Bytes
  scan_prefix = object_scan_prefix bucket opt.prefix

  list_body-newest :
      (k v : Bytes) (st : Listing) (o : Object) (name : ObjectName)
      → split_object_key k ≡ some name
      → name.key ≡ o.key
      → objects.decode v ≡ some o
      → list_body kv objects tx bucket opt false k v st
        ≡ latest_step kv objects tx bucket opt false o.key o st
  unfolding list_body collapsed
  list_body-newest k v st o name split key d =
      rw (split, list_body, nd, collapsed, d)
        (ap (λ c. latest_step kv objects tx bucket opt false c o st) key)

  list_body-Goes :
      (start k v : Bytes) (st : Listing)
      → UpTo kv objects tx bucket opt start st
      → first_from kv tx scan_prefix start ≡ some (k, v)
      → Moves
          (UpTo kv objects tx bucket opt)
          (Whole kv objects tx bucket opt)
          k
          (list_body kv objects tx bucket opt false k v st)
  list_body-Goes start k v st u found =
      let (h, _, g, _) = first_from-some kv tx scan_prefix start k v found in
      let (o, d, at, nk, small, _) =
        coherent k v g (object_scan_prefix-bucket bucket opt.prefix k h) in
      let name : ObjectName = record { bucket = bucket; key = o.key; seq = o.seq } in
      let split : split_object_key k ≡ some name =
        ap split_object_key at ∙ split_object_key-object_key bucket o.key o.seq nb small in
      subst (Moves (UpTo kv objects tx bucket opt) (Whole kv objects tx bucket opt) k)
        (sym (list_body-newest k v st o name split refl d))
        (latest_step-Goes kv objects tx bucket opt coherent start k v st u found o d at nk
          (split_object_key-prefix bucket opt.prefix k name nb h split np))

  at_start :
      UpTo kv objects tx bucket opt scan_prefix (record { res = empty_result; last_key = [] })
  at_start = record {
    stand = opt.prefix;
    stand-NoNul = np;
    at = refl;
    not_before = lt_bytes_irrefl scan_prefix;
    open_page = refl;
    sound = λ e m. absurd m;
    ascending = tt;
    passed = λ o m. absurd m;
    listed = λ o live l.
        let (_, _, _, h) = Live-record kv objects tx bucket opt coherent o live in
        let x = object_key bucket o.key o.seq in
        absurd (ground (arith, has_prefix-lt_bytes x scan_prefix h));
  }

  start_of-whole : start_of kv objects tx bucket opt false ≡ some scan_prefix
  unfolding start_of
  start_of-whole = rw ns refl

  -- ListObjects without a delimiter and a start returns a page, if the records of the bucket are versions
  -- that can be decoded, with keys that have no NUL byte, the bucket's name has no slash and the prefix no
  -- NUL byte. It lists only objects with the prefix that GetLatest returns and that are no delete markers,
  -- in the order of their records, so none twice, and unless it is truncated, all of them.
  pub list-Whole : Whole kv objects tx bucket opt (list kv objects tx bucket opt false)
  unfolding list
  list-Whole =
      let st : Listing = record { res = empty_result; last_key = [] } in
      option_elim (Whole kv objects tx bucket opt) (start_of kv objects tx bucket opt false) _ _
        (λ e. absurd (ground (arith, start_of-whole)))
        (λ start e.
          scan_enough_lem kv tx scan_prefix (list_body kv objects tx bucket opt false)
            (UpTo kv objects tx bucket opt) (Whole kv objects tx bucket opt)
            (at_end kv objects tx bucket opt coherent) list_body-Goes start st
            (subst (λ x. UpTo kv objects tx bucket opt x st)
              (some-injective _ _ (sym start_of-whole ∙ e)) at_start))
