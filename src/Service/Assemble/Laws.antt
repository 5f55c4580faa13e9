-- ===== src/Service/Assemble/Laws.antt =====
-- internal/object/multipart.go: what the object that `assemble` builds is made of.
use opens.Prelude.{
  ◌≡◌, refl, sym, ap, ◌∙◌, ◌⊎◌, inl, inr, Bytes, ℤ, pos, negsuc, lt_int, Bool, true, false, not,
  ◌&&◌, ◌||◌, Option, none, some, List, [], ◌∷◌, In, codes, eq_bytes, arith, first_check-none,
  fail_if-none, if_elim, option_elim, subst, Bool-cases, Option-cases,
}
use mathlib.Core.Option.{some-injective}
use opens.Meta.Types.{Part, Checksum, Upload, Object}
use opens.Service.Lock.{Go, etag_matches}
use opens.Service.Delete.{Context}
use opens.Service.Assemble.{
  Digests, CompletePart, CompleteInput, MultipartError, Assembly, refused, built, min_part_size,
  max_object_size, eq_int, total_from, in_order, by_number, part_checks, check_part, is_last,
  choose, size_checks, whole_checksum, assembled, build, assemble, invalid_part, entity_too_small,
  invalid_part_order, size_mismatch,
}

eq_int_sound : (a b : ℤ) → eq_int a b ≡ true → a ≡ b
unfolding eq_int
eq_int_sound (pos a) (pos b) h = ap pos (ground arith)
eq_int_sound (negsuc a) (negsuc b) h = ap negsuc (ground arith)
eq_int_sound (pos a) (negsuc b) h = ground arith
eq_int_sound (negsuc a) (pos b) h = ground arith

-- The part that is found is stored, under that number.
by_number-In :
    (stored : List Part) (number : ℤ) (p : Part)
    → by_number stored number ≡ some p
    → In p stored × (p.number ≡ number)
unfolding by_number
by_number-In [] number p h = ground arith
by_number-In (q ∷ qs) number p h = elim (Option-cases (by_number qs number)) [
  | inr (r, e) ↦
      let (m, same) = by_number-In qs number r e in
      let found : r ≡ p = some-injective _ _ (ground arith) in
      (inr (subst (λ x. In x qs) found m), ap (λ (x : Part). x.number) (sym found) ∙ same)
  | inl e ↦ elim (Bool-cases (eq_int q.number number)) [
    | inl same ↦
        let found : q ≡ p = some-injective _ _ (ground arith) in
        (inl found, ap (λ (x : Part). x.number) (sym found) ∙ eq_int_sound q.number number same)
    | inr other ↦ ground arith
  ]
]

module _ (go : Go) (u : Upload) (stored : List Part) where
  -- The parts are stored ones of the numbers and ETags in the list, and all but the last are large enough.
  pub Matches : List CompletePart → List Part → Type 0
  Matches [] [] = Unit
  Matches [] (p ∷ ps) = ⊥
  Matches (cp ∷ cps) [] = ⊥
  Matches (cp ∷ cps) (p ∷ ps) =
      In p stored
      × (p.number ≡ cp.part_number)
      × (etag_matches go cp.etag p.etag ≡ true)
      × ((cps ≡ []) ⊎ (lt_int p.size min_part_size ≡ false))
      × Matches cps ps

  AllMatch : List CompletePart → Assembly (List Part) → Type 0
  AllMatch cps (refused e) = Unit
  AllMatch cps (built ps) = Matches cps ps

  last_or_large :
      (cps : List CompletePart) (p : Part)
      → (not (is_last cps) && lt_int p.size min_part_size) ≡ false
      → (cps ≡ []) ⊎ (lt_int p.size min_part_size ≡ false)
  last_or_large [] p h = inl refl
  last_or_large (cp ∷ cps) p h = inr h

  part_checks-none :
      (cp : CompletePart) (p : Part) (final : Bool)
      → part_checks go u final cp p ≡ none
      → (etag_matches go cp.etag p.etag ≡ true)
        × ((not final && lt_int p.size min_part_size) ≡ false)
  unfolding part_checks
  part_checks-none cp p final h =
      let (matching, rest) =
        first_check-none (not (etag_matches go cp.etag p.etag) || eq_bytes cp.etag (codes "*"))
          invalid_part _ h in
      let (large, _) =
        first_check-none (not final && lt_int p.size min_part_size) entity_too_small _ rest in
      (ground arith, large)

  check_part-AllMatch :
      (cp : CompletePart) (cps : List CompletePart) (p : Part) (rest : Assembly (List Part))
      → In p stored
      → p.number ≡ cp.part_number
      → AllMatch cps rest
      → AllMatch (cp ∷ cps) (check_part (part_checks go u (is_last cps) cp p) p rest)
  unfolding check_part AllMatch Matches
  check_part-AllMatch cp cps p (refused e) m number r =
      refused_lem (part_checks go u (is_last cps) cp p)
    where
      refused_lem :
          (checks : Option MultipartError) → AllMatch (cp ∷ cps) (check_part checks p (refused e))
      refused_lem none = tt
      refused_lem (some e') = tt
  check_part-AllMatch cp cps p (built ps) m number r =
      elim (Option-cases (part_checks go u (is_last cps) cp p)) [
        | inr (e, h) ↦ rw h tt
        | inl h ↦
            let (etag, large) = part_checks-none cp p (is_last cps) h in
            rw h (m, number, etag, last_or_large cps p large, r)
      ]

  choose-AllMatch : (cps : List CompletePart) → AllMatch cps (choose go u stored cps)
  unfolding choose AllMatch Matches
  choose-AllMatch [] = tt
  choose-AllMatch (cp ∷ cps) =
      option_elim (AllMatch (cp ∷ cps)) (by_number stored cp.part_number) _ _ (λ _. tt)
        (λ p found.
          let (m, number) = by_number-In stored cp.part_number p found in
          check_part-AllMatch cp cps p (choose go u stored cps) m number (choose-AllMatch cps))

  size_checks-none :
      (i : CompleteInput) (ps : List Part)
      → size_checks i ps ≡ none
      → ((lt_int i.object_size (pos 0) ≡ true) ⊎ (total_from (pos 0) ps ≡ i.object_size))
        × (lt_int max_object_size (total_from (pos 0) ps) ≡ false)
  unfolding size_checks
  size_checks-none i ps h =
      let (sized, rest) =
        first_check-none
          (not (lt_int i.object_size (pos 0)) && not (eq_int i.object_size (total_from (pos 0) ps)))
          size_mismatch _ h in
      (
        elim (Bool-cases (lt_int i.object_size (pos 0))) [
          | inl e ↦ inl e
          | inr e ↦
              let same = eq_int_sound i.object_size (total_from (pos 0) ps) (ground arith) in
              inr (sym same)
        ],
        fail_if-none _ _ rest,
      )

  module _ (d : Digests) (c : Context) (i : CompleteInput) where
    -- What is built from the list of the request.
    pub Assembled : Assembly Object → Type 0
    Assembled (refused e) = Unit
    Assembled (built o) =
        (in_order (pos 0) i.parts ≡ true)
        × Matches i.parts o.parts
        × (o.size ≡ total_from (pos 0) o.parts)
        × (lt_int max_object_size o.size ≡ false)
        × ((lt_int i.object_size (pos 0) ≡ true) ⊎ (o.size ≡ i.object_size))
        × (o.bucket ≡ i.bucket)
        × (o.key ≡ i.key)
        × (o.seq ≡ c.seq)

    pub Assembled-request :
        (o : Object)
        → Assembled (built o)
        → (o.bucket ≡ i.bucket) × (o.key ≡ i.key) × (o.seq ≡ c.seq)
    unfolding Assembled
    Assembled-request o (_, _, _, _, _, b, k, s) = (b, k, s)

    -- A version ID changes nothing of it.
    pub Assembled-version_id :
        (o : Object) (id : Bytes)
        → Assembled (built o)
        → Assembled (built (record o { version_id = id }))
    unfolding Assembled
    Assembled-version_id o id a = a

    build-Assembled :
        (ps : List Part)
        → in_order (pos 0) i.parts ≡ true
        → Matches i.parts ps
        → Assembled (build d c i u ps)
    unfolding build Assembled
    build-Assembled ps ordered matches =
        option_elim Assembled (size_checks i ps) _ _
          (λ sizes. whole sizes (whole_checksum d c i u ps)) (λ _ _. tt)
      where
        whole :
            size_checks i ps ≡ none
            → (r : Assembly (Option Checksum))
            → Assembled
                (elim r [ refused e ↦ refused e | built cs ↦ built (assembled d c i u ps cs) ])
        whole sizes (refused e) = tt
        whole sizes (built cs) =
            let (stated, small) = size_checks-none i ps sizes in
            unfold assembled in (ordered, matches, refl, small, stated, refl, refl, refl)

    pub assemble-Assembled : Assembled (assemble d c go i u stored)
    unfolding assemble
    assemble-Assembled =
        if_elim Assembled (not (in_order (pos 0) i.parts)) _ _ (λ _. refused_lem)
          (λ ordered. chosen (ground arith) (choose go u stored i.parts) (choose-AllMatch i.parts))
      where
        refused_lem : Assembled (refused invalid_part_order)
        refused_lem = unfold Assembled in tt

        chosen :
            in_order (pos 0) i.parts ≡ true
            → (r : Assembly (List Part)) → AllMatch i.parts r
            → Assembled (elim r [ refused e ↦ refused e | built ps ↦ build d c i u ps ])
        chosen ordered (refused e) m = unfold Assembled in tt
        chosen ordered (built ps) m = build-Assembled ps ordered (unfold AllMatch in m)
