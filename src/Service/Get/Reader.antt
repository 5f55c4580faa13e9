-- ===== src/Service/Get/Reader.antt =====
-- internal/object/get.go: `partsReader`. A reader of a part is what it has left to give: it gives at least
-- one byte, as long as it has one, and then the end of the file.
pub mod Reads
use opens.Prelude.{
  ℕ, zero, suc, ◌+◌, ◌-◌, Bool, true, false, Option, none, some, List, [], ◌∷◌, ◌++◌, Bytes, length,
  take, drop, ltb, ◌==◌, if◌then◌else◌,
}
use opens.Meta.Types.{Part}
use opens.Service.Get.{size_of}

pub record PartsReader : Type 0 where
  pub offset : ℕ
  pub remain : ℕ
  pub cur : Option Bytes

-- What one round of the loop of Read does: the end, an error, or bytes (none where it continues).
pub data Round : Type 0 where
  end_of_file : Round
  failed : Round
  gives : Bytes → PartsReader → Round

-- What a client reads to the end.
pub data Drained : Type 0 where
  complete : Bytes → Drained
  broken endless : Drained

abbrev pub least : ℕ → ℕ → ℕ
least a b = if ltb b a then b else a

-- The part that holds the byte at `offset`, and where in it; the parts begin at `base`.
pub locate : ℕ → List Part → ℕ → Option (Part × ℕ)
locate base [] offset = none
locate base (p ∷ ps) offset =
    let rest = locate (base + size_of p.size) ps offset in
    if ltb offset (base + size_of p.size) then some (p, offset - base) else rest

-- `open_part p off ln` is what openPart returns the bytes of; `pull bs n` is how many of the bytes bs a Read
-- into n bytes gives; the client's buffer has `buffer` bytes.
module _ (parts : List Part) (open_part : Part → ℕ → ℕ → Option Bytes) (pull : Bytes → ℕ → ℕ)
    (buffer : ℕ) where
  -- openNext
  pub open_next : PartsReader → Option Bytes
  unfolding locate
  open_next r = elim (locate 0 parts r.offset) [
    | none ↦ none
    | some (p, off) ↦ open_part p off (least (size_of p.size - off) r.remain)
  ]

  -- cur.Read(buf)
  pub read_cur : PartsReader → Bytes → Round
  read_cur r [] = gives [] (record { offset = r.offset; remain = r.remain; cur = none })
  read_cur r (b ∷ bs) =
      let n = pull (b ∷ bs) (least buffer r.remain) in
      gives (take n (b ∷ bs))
        (record { offset = r.offset + n; remain = r.remain - n; cur = some (drop n (b ∷ bs)) })

  pub round : PartsReader → Round
  unfolding open_next read_cur
  round r = if r.remain == 0 then end_of_file else elim r.cur [
    | some bs ↦ read_cur r bs
    | none ↦ elim (open_next r) [ none ↦ failed | some bs ↦ read_cur r bs ]
  ]

  abbrev pub ahead : Bytes → Drained → Drained
  ahead out (complete bs) = complete (out ++ bs)
  ahead out broken = broken
  ahead out endless = endless

  -- Reading to the end.
  pub drain : ℕ → PartsReader → Drained
  unfolding round
  drain zero r = endless
  drain (suc fuel) r = elim (round r) [
    | end_of_file ↦ complete []
    | failed ↦ broken
    | gives out r' ↦ ahead out (drain fuel r')
  ]

  -- openRange(o, dek, offset, length), read to the end: two rounds for a byte at most, and one for the end
  pub open_range : ℕ → ℕ → Drained
  unfolding drain
  open_range offset length =
      drain (length + length + 1) (record { offset = offset; remain = length; cur = none })
