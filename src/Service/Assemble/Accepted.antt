-- ===== src/Service/Assemble/Accepted.antt =====
-- internal/object/multipart.go: a list of all the parts of an upload is accepted.
use opens.Prelude.{
  ◌≡◌, refl, subst, inl, inr, ℤ, pos, negsuc, lt_int, le_int, lt_int→le_int, le_int_refl, true,
  false, not, ◌&&◌, Option, none, some, List, [], ◌∷◌, In, codes, eq_bytes, arith,
}
use opens.Meta.Types.{Part, Checksum, Upload}
use opens.Service.Lock.{Go, etag_matches}
use opens.Service.Delete.{Context}
use opens.Service.Assemble.{
  Digests, CompletePart, CompleteInput, built, min_part_size, eq_int, in_order, by_number,
  part_checks, check_part, is_last, choose, size_checks, whole_checksum, assembled, build, assemble,
}

-- The list that names these parts with their ETags.
abbrev pub named : List Part → List CompletePart
named [] = []
named (p ∷ ps) = record { part_number = p.number; etag = p.etag; checksum = [] } ∷ named ps

eq_int_refl : (a : ℤ) → eq_int a a ≡ true
unfolding eq_int
eq_int_refl (pos a) = ground arith
eq_int_refl (negsuc a) = ground arith

less-differs : (a b : ℤ) → lt_int a b ≡ true → eq_int b a ≡ false
unfolding eq_int
less-differs (pos a) (pos b) h = ground arith
less-differs (pos a) (negsuc b) h = ground arith
less-differs (negsuc a) (pos b) h = refl
less-differs (negsuc a) (negsuc b) h = ground arith

le_lt_int : (a b c : ℤ) → le_int a b ≡ true → lt_int b c ≡ true → lt_int a c ≡ true
le_lt_int (pos a) (pos b) (pos c) h k = ground arith
le_lt_int _ _ _ h k = ground arith

-- Parts behind a number have another number.
by_number-below :
    (last n : ℤ) (ps : List Part)
    → in_order last (named ps) ≡ true
    → le_int n last ≡ true
    → by_number ps n ≡ none
unfolding by_number in_order
by_number-below last n [] h k = refl
by_number-below last n (p ∷ ps) h k =
    let above : lt_int n p.number ≡ true = le_lt_int n last p.number k (ground arith) in
    rw
      (
        by_number-below p.number n ps (ground arith) (lt_int→le_int n p.number above),
        less-differs n p.number above,
      )
      refl

by_number-own :
    (last : ℤ) (ps : List Part) (p : Part)
    → in_order last (named ps) ≡ true
    → In p ps
    → by_number ps p.number ≡ some p
unfolding by_number in_order
by_number-own last [] p h m = absurd m
by_number-own last (q ∷ qs) p h (inl same) =
    subst (λ (x : Part). by_number (q ∷ qs) x.number ≡ some x) same own
  where
    own : by_number (q ∷ qs) q.number ≡ some q
    own =
        rw
          (
            by_number-below q.number q.number qs (ground arith) (le_int_refl q.number),
            eq_int_refl q.number,
          )
          refl
by_number-own last (q ∷ qs) p h (inr m) = rw (by_number-own q.number qs p (ground arith) m) refl

module _ (go : Go) (u : Upload) (stored : List Part) where
  -- Parts whose ETags can be listed, and all but the last are large enough.
  unfoldable pub Acceptable : List Part → Type 0
  Acceptable [] = Unit
  Acceptable (p ∷ ps) =
      (etag_matches go p.etag p.etag ≡ true)
      × (eq_bytes p.etag (codes "*") ≡ false)
      × ((not (is_last (named ps)) && lt_int p.size min_part_size) ≡ false)
      × Acceptable ps

  part_checks-named :
      (p : Part) (ps : List Part)
      → Acceptable (p ∷ ps)
      → part_checks go u
          (is_last (named ps))
          (record { part_number = p.number; etag = p.etag; checksum = [] })
          p
        ≡ none
  unfolding part_checks Acceptable
  part_checks-named p ps (matching, star, large, _) = ground arith

  choose-named :
      (ps : List Part)
      → ((p : Part) → In p ps → by_number stored p.number ≡ some p)
      → Acceptable ps
      → choose go u stored (named ps) ≡ built ps
  unfolding choose check_part Acceptable
  choose-named [] found a = refl
  choose-named (p ∷ ps) found a =
      rw
        (
          choose,
          found p (inl refl),
          part_checks-named p ps a,
          choose-named ps (λ q m. found q (inr m)) a.3,
        )
        refl

  -- The list of all the parts that are stored is accepted, with their ETags: assemble builds the object of
  -- them, if their numbers are positive and increase, each ETag matches itself and is not `*`, all but the
  -- last have at least 5 MiB, the sizes are within the limit and are what the request states, and the
  -- checksum of the whole is not refused.
  pub assemble-accepts :
      (d : Digests) (c : Context) (i : CompleteInput) (checksum : Option Checksum)
      → i.parts ≡ named stored
      → in_order (pos 0) (named stored) ≡ true
      → Acceptable stored
      → size_checks i stored ≡ none
      → whole_checksum d c i u stored ≡ built checksum
      → assemble d c go i u stored ≡ built (assembled d c i u stored checksum)
  unfolding assemble build
  assemble-accepts d c i checksum listed ordered acceptable sized summed =
      rw
        (
          listed,
          ordered,
          choose-named stored (λ p m. by_number-own (pos 0) stored p ordered m) acceptable,
          build,
          sized,
          summed,
        )
        refl
