-- ===== src/Service/Get/Reader/Reads.antt =====
-- internal/object/get.go: what a client reads to the end is the range of the object that it has asked for.
use opens.Prelude.{
  ℕ, zero, suc, ◌+◌, ◌-◌, ◌≤◌, ◌<◌, ◌≡◌, refl, sym, ap, subst, ◌∙◌, inl, inr, Bool-cases, true,
  false, Option, none, some, List, [], ◌∷◌, ◌++◌, Bytes, In, length, length-append, take, drop, ltb,
  ◌==◌, arith, length-drop, length-take, drop-append_left, drop-append_right, take-append_left,
  drop-drop, take-split, take-append-drop,
}
use mathlib.Core.List.{append_assoc}
use opens.Meta.Types.{Part}
use opens.Service.Get.{size_of}
use opens.Service.Get.Reader.{
  PartsReader, Round, end_of_file, failed, gives, Drained, complete, broken, least, locate,
  open_next, read_cur, round, ahead, drain, open_range,
}

first_byte : (xs : Bytes) → 1 ≤ length xs → (b : ℕ) × (bs : Bytes) × (xs ≡ b ∷ bs)
first_byte [] h = ground arith
first_byte (b ∷ bs) h = (b, bs, refl)

module _ (content : Part → Bytes) where
  -- The bytes of an object: those of its parts, one behind the other.
  unfoldable pub contents : List Part → Bytes
  contents [] = []
  contents (p ∷ ps) = content p ++ contents ps

  Located : List Part → ℕ → Option (Part × ℕ) → Type 0
  Located ps k none = ⊥
  Located ps k (some (p, off)) =
      In p ps
      × (off < size_of p.size)
      × ((rest : Bytes) × (drop k (contents ps) ≡ drop off (content p) ++ rest))

  Located-later :
      (p : Part) (ps : List Part) (j k : ℕ) (r : Option (Part × ℕ))
      → drop k (contents (p ∷ ps)) ≡ drop j (contents ps)
      → Located ps j r
      → Located (p ∷ ps) k r
  unfolding Located
  Located-later p ps j k none e l = l
  Located-later p ps j k (some (q, off)) e (m, inside, (rest, d)) = (inr m, inside, (rest, e ∙ d))

  locate-Located :
      (base : ℕ) (ps : List Part) (offset : ℕ)
      → ((p : Part) → In p ps → length (content p) ≡ size_of p.size)
      → base ≤ offset
      → offset < base + length (contents ps)
      → Located ps (offset - base) (locate base ps offset)
  unfolding locate Located contents
  locate-Located base [] offset sized h k = ground arith
  locate-Located base (p ∷ ps) offset sized h k =
      elim (Bool-cases (ltb offset (base + size_of p.size))) [
        | inl e ↦ rw e (
          inl refl,
          ground arith,
          (
            contents ps,
            drop-append_left (offset - base) (content p) (contents ps)
                (ground (arith, sized p (inl refl))),
          ),
        )
        | inr e ↦
            let behind : length (content p) ≤ offset - base = ground (arith, sized p (inl refl)) in
            let inside : offset < (base + size_of p.size) + length (contents ps) =
              ground (arith, sized p (inl refl), length-append (content p) (contents ps)) in
            let less : (offset - base) - length (content p) ≡ offset - (base + size_of p.size) =
              ground (arith, sized p (inl refl)) in
            rw e (
              Located-later p ps (offset - (base + size_of p.size)) (offset - base)
                (locate (base + size_of p.size) ps offset)
                (drop-append_right (offset - base) (content p) (contents ps) behind
                  ∙ ap (λ j. drop j (contents ps)) less)
                (locate-Located (base + size_of p.size) ps offset (λ q m. sized q (inr m))
                  (ground arith) inside))
      ]

  -- What the store and the readers of its blobs do, as they are documented: a part is as long as its record
  -- says, an offset and a length within it give these bytes of it, and a Read gives at least one byte, where
  -- there is one and room for one.
  pub record Opens (parts : List Part) (open_part : Part → ℕ → ℕ → Option Bytes)
      (pull : Bytes → ℕ → ℕ) : Type 0 where
    pub sized : (p : Part) → In p parts → length (content p) ≡ size_of p.size
    pub opens_at :
        (p : Part) (off ln : ℕ)
        → In p parts
        → off + ln ≤ size_of p.size
        → open_part p off ln ≡ some (take ln (drop off (content p)))
    pub pulls_some : (b : ℕ) (bs : Bytes) (n : ℕ) → 1 ≤ n → 1 ≤ pull (b ∷ bs) n
    pub pulls_room : (bs : Bytes) (n : ℕ) → pull bs n ≤ n
    pub pulls_there : (bs : Bytes) (n : ℕ) → pull bs n ≤ length bs

  module _ (parts : List Part) (open_part : Part → ℕ → ℕ → Option Bytes) (pull : Bytes → ℕ → ℕ)
      (buffer : ℕ) (opens_parts : Opens parts open_part pull) (room : 1 ≤ buffer) where
    open opens_parts use {sized, opens_at, pulls_some, pulls_room, pulls_there}

    abbrev whole : Bytes
    whole = contents parts

    -- What the open reader still gives are the next bytes of the object.
    abbrev Next : ℕ → ℕ → Bytes → Type 0
    Next offset remain bs =
        ((rest : Bytes) × (drop offset whole ≡ bs ++ rest)) × (length bs ≤ remain)

    Fits : ℕ → ℕ → Option Bytes → Type 0
    Fits offset remain none = Unit
    Fits offset remain (some bs) = Next offset remain bs

    -- The rounds that are left at most.
    rounds : ℕ → Option Bytes → ℕ
    rounds remain none = remain + remain + 1
    rounds remain (some []) = remain + remain + 2
    rounds remain (some (_ ∷ _)) = remain + remain + 1

    Opened : ℕ → ℕ → Option Bytes → Type 0
    Opened offset remain r =
        (b : ℕ) × (bs : Bytes) × (r ≡ some (b ∷ bs)) × Next offset remain (b ∷ bs)

    -- The bytes of one part, from `off` on, are the next ones of the object.
    part-Opened :
        (offset remain : ℕ) (p : Part) (off : ℕ)
        → 1 ≤ remain
        → Located parts offset (some (p, off))
        → Opened offset remain (open_part p off (least (size_of p.size - off) remain))
    unfolding Opened Located
    part-Opened offset remain p off some_left (m, within, (rest, d)) =
        let ln : ℕ = least (size_of p.size - off) remain in
        let x : Bytes = drop off (content p) in
        let long : length (take ln x) ≡ ln =
          length-take ln x (ground (arith, length-drop off (content p), sized p m)) in
        let (b, bs, e) = first_byte (take ln x) (ground arith) in
        let next : drop offset whole ≡ take ln x ++ (drop ln x ++ rest) =
          d
          ∙ ap (λ y. y ++ rest) (sym (take-append-drop ln x))
          ∙ append_assoc (take ln x) (drop ln x) rest in
        (
          b,
          bs,
          opens_at p off ln m (ground arith) ∙ ap some e,
          (
            (drop ln x ++ rest, next ∙ ap (λ y. y ++ (drop ln x ++ rest)) e),
            ground (arith, ap length e),
          ),
        )

    open_next-Next :
        (offset remain : ℕ)
        → 1 ≤ remain
        → offset + remain ≤ length whole
        → Opened offset remain (
            open_next parts open_part pull buffer
              (record { offset = offset; remain = remain; cur = none }))
    unfolding open_next
    open_next-Next offset remain some_left inside =
        let same : offset - 0 ≡ offset = omega arith in
        opened (locate 0 parts offset) (
          subst (λ k. Located parts k (locate 0 parts offset)) same
            (locate-Located 0 parts offset sized (ground arith) (ground arith)))
      where
        opened :
            (r : Option (Part × ℕ))
            → Located parts offset r
            → Opened offset remain (elim r [
              | none ↦ none
              | some (p, off) ↦ open_part p off (least (size_of p.size - off) remain)
            ])
        opened none l = absurd (unfold Located in l)
        opened (some (p, off)) l = part-Opened offset remain p off some_left l

    abbrev at : ℕ → ℕ → Option Bytes → PartsReader
    at offset remain cur = record { offset = offset; remain = remain; cur = cur }

    abbrev drained : ℕ → PartsReader → Drained
    drained fuel r = drain parts open_part pull buffer fuel r

    abbrev asked : ℕ → ℕ → Bytes
    asked offset remain = take remain (drop offset whole)

    rounds_most : (remain : ℕ) (cur : Option Bytes) → rounds remain cur ≤ remain + remain + 2
    unfolding rounds
    rounds_most remain none = omega arith
    rounds_most remain (some []) = omega arith
    rounds_most remain (some (b ∷ bs)) = omega arith

    rounds_some : (remain : ℕ) (cur : Option Bytes) → 1 ≤ rounds remain cur
    unfolding rounds
    rounds_some remain none = omega arith
    rounds_some remain (some []) = omega arith
    rounds_some remain (some (b ∷ bs)) = omega arith

    -- What the rounds after this one read, and what this one reads.
    abbrev follow : ℕ → Round → Drained
    follow fuel r = elim r [
      | end_of_file ↦ complete []
      | failed ↦ broken
      | gives out r' ↦ ahead parts open_part pull buffer out (drained fuel r')
    ]

    -- Reading with this much fuel gives all that was asked for.
    Drains : ℕ → Type 0
    Drains fuel =
        (offset remain : ℕ) (cur : Option Bytes)
        → offset + remain ≤ length whole
        → Fits offset remain cur
        → rounds remain cur ≤ fuel
        → drained fuel (at offset remain cur) ≡ complete (asked offset remain)

    read_cur-Drains :
        (fuel offset remain b : ℕ) (bs : Bytes) (cur : Option Bytes)
        → Drains fuel
        → 1 ≤ remain
        → offset + remain ≤ length whole
        → Next offset remain (b ∷ bs)
        → remain + remain ≤ fuel
        → follow fuel (read_cur parts open_part pull buffer (at offset remain cur) (b ∷ bs))
          ≡ complete (asked offset remain)
    unfolding read_cur Drains Fits
    read_cur-Drains fuel offset remain b bs cur ih some_left inside ((rest, d), long) enough =
        let n : ℕ = pull (b ∷ bs) (least buffer remain) in
        let some_read : 1 ≤ n = pulls_some b bs (least buffer remain) (ground arith) in
        let within : n ≤ remain = ground (arith, pulls_room (b ∷ bs) (least buffer remain)) in
        let there : n ≤ length (b ∷ bs) = pulls_there (b ∷ bs) (least buffer remain) in
        let further : drop (offset + n) whole ≡ drop n (b ∷ bs) ++ rest =
          drop-drop offset n whole
          ∙ ap (λ w. drop n w) d
          ∙ drop-append_left n (b ∷ bs) rest there in
        let rest_read =
          ih (offset + n) (remain - n) (some (drop n (b ∷ bs))) (ground arith)
            ((rest, further), ground (arith, length-drop n (b ∷ bs)))
            (ground (arith, rounds_most (remain - n) (some (drop n (b ∷ bs))))) in
        let first : take n (drop offset whole) ≡ take n (b ∷ bs) =
          ap (λ w. take n w) d ∙ take-append_left n (b ∷ bs) rest there in
        let joined : take n (b ∷ bs) ++ asked (offset + n) (remain - n) ≡ asked offset remain =
          ap (λ w. w ++ asked (offset + n) (remain - n)) (sym first)
          ∙ ap (λ w. take n (drop offset whole) ++ take (remain - n) w) (drop-drop offset n whole)
          ∙ sym (take-split n remain (drop offset whole) within) in
        ap (λ r. ahead parts open_part pull buffer (take n (b ∷ bs)) r) rest_read
        ∙ ap complete joined

    round-none :
        (offset remain : ℕ) (bs : Bytes)
        → (remain == 0) ≡ false
        → open_next parts open_part pull buffer (at offset remain none) ≡ some bs
        → round parts open_part pull buffer (at offset remain none)
          ≡ read_cur parts open_part pull buffer (at offset remain none) bs
    unfolding round
    round-none offset remain bs e o = rw (e, o) refl

    round-some :
        (offset remain : ℕ) (bs : Bytes)
        → (remain == 0) ≡ false
        → round parts open_part pull buffer (at offset remain (some bs))
          ≡ read_cur parts open_part pull buffer (at offset remain (some bs)) bs
    unfolding round
    round-some offset remain bs e = rw e refl

    round-end :
        (offset remain : ℕ) (cur : Option Bytes)
        → (remain == 0) ≡ true
        → round parts open_part pull buffer (at offset remain cur) ≡ end_of_file
    unfolding round
    round-end offset remain cur e = rw e refl

    round-Drains :
        (fuel offset remain : ℕ) (cur : Option Bytes)
        → Drains fuel
        → (remain == 0) ≡ false
        → offset + remain ≤ length whole
        → Fits offset remain cur
        → rounds remain cur ≤ suc fuel
        → follow fuel (round parts open_part pull buffer (at offset remain cur))
          ≡ complete (asked offset remain)
    unfolding rounds Fits Opened Drains read_cur
    round-Drains fuel offset remain (some (b ∷ bs)) ih e inside next enough =
        ap (follow fuel) (round-some offset remain (b ∷ bs) e)
        ∙ read_cur-Drains fuel offset remain b bs (some (b ∷ bs)) ih (ground arith) inside next
            (ground arith)
    round-Drains fuel offset remain (some []) ih e inside next enough =
        ap (follow fuel) (round-some offset remain [] e)
        ∙ ap (λ r. ahead parts open_part pull buffer [] r)
            (ih offset remain none inside tt (ground arith))
    round-Drains fuel offset remain none ih e inside next enough =
        let (b, bs, o, ahead_of) = open_next-Next offset remain (ground arith) inside in
        ap (follow fuel) (round-none offset remain (b ∷ bs) e o)
        ∙ read_cur-Drains fuel offset remain b bs none ih (ground arith) inside ahead_of
            (ground arith)

    drains : (fuel : ℕ) → Drains fuel
    unfolding Drains drain
    drains zero offset remain cur inside fits enough = ground (arith, rounds_some remain cur)
    drains (suc fuel) offset remain cur inside fits enough = elim (Bool-cases (remain == 0)) [
      | inl e ↦
          let none_left : remain ≡ 0 = ground arith in
          ap (follow fuel) (round-end offset remain cur e)
          ∙ ap (λ k. complete (take k (drop offset whole))) (sym none_left)
      | inr e ↦ round-Drains fuel offset remain cur (drains fuel) e inside fits enough
    ]

    pub open_range-complete :
        (offset ln : ℕ)
        → offset + ln ≤ length whole
        → open_range parts open_part pull buffer offset ln ≡ complete (asked offset ln)
    unfolding open_range Fits rounds Drains
    open_range-complete offset ln inside =
        drains (ln + ln + 1) offset ln none inside tt (omega arith)
