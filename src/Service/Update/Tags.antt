-- ===== src/Service/Update/Tags.antt =====
-- internal/object/put.go: `ValidateTags` accepts exactly the tag sets within the limits of S3.
use opens.Prelude.{
  ◌≤◌, ◌<◌, ◌≡◌, ◌≢◌, ◌↔◌, refl, inl, inr, false, none, List, [], ◌∷◌, Bytes, All, eq_bytes,
  eq_bytes_sound, eq_bytes_refl, length, any, arith, Bool-cases, ap,
}
use opens.Meta.Types.{Tag}
use opens.Service.Update.{validate_tags_from, validate_tags}

-- A tag within the limits.
abbrev pub InLimits : Tag → Type 0
InLimits t = (0 < length t.key) × (length t.key ≤ 128) × (length t.value ≤ 256)

-- No key is that of another tag.
abbrev pub Distinct : List Tag → Type 0
Distinct [] = Unit
Distinct (t ∷ ts) = All (λ (u : Tag). u.key ≢ t.key) ts × Distinct ts

-- No key is one that was seen.
abbrev Unseen : List Bytes → List Tag → Type 0
Unseen seen ts = All (λ (t : Tag). any (eq_bytes t.key) seen ≡ false) ts

Unseen-cons :
    (seen : List Bytes) (key : Bytes) (ts : List Tag)
    → Unseen (key ∷ seen) ts
    → Unseen seen ts × All (λ (u : Tag). u.key ≢ key) ts
unfolding any
Unseen-cons seen key [] h = (tt, tt)
Unseen-cons seen key (t ∷ ts) h =
    let (a, b) = Unseen-cons seen key ts h.1 in
    (
      (ground (arith, h.0), a),
      (λ e. ground (arith, h.0, eq_bytes_refl key, ap (λ z. eq_bytes z key) e), b),
    )

cons-Unseen :
    (seen : List Bytes) (key : Bytes) (ts : List Tag)
    → Unseen seen ts
    → All (λ (u : Tag). u.key ≢ key) ts
    → Unseen (key ∷ seen) ts
unfolding any
cons-Unseen seen key [] h k = tt
cons-Unseen seen key (t ∷ ts) h k = (other, cons-Unseen seen key ts h.1 k.1)
  where
    other : any (eq_bytes t.key) (key ∷ seen) ≡ false
    other = elim (Bool-cases (eq_bytes t.key key)) [
      | inl e ↦ absurd (k.0 (eq_bytes_sound t.key key e))
      | inr e ↦ ground (arith, h.0)
    ]

accepted :
    (seen : List Bytes) (ts : List Tag)
    → validate_tags_from seen ts ≡ none
    → All InLimits ts × Distinct ts × Unseen seen ts
unfolding validate_tags_from
accepted seen [] h = (tt, tt, tt)
accepted seen (t ∷ ts) h =
    let (a, b, d) = accepted (t.key ∷ seen) ts (ground arith) in
    let (e, f) = Unseen-cons seen t.key ts d in
    (((ground arith, ground arith, ground arith), a), (f, b), (ground arith, e))

accepts :
    (seen : List Bytes) (ts : List Tag)
    → All InLimits ts
    → Distinct ts
    → Unseen seen ts
    → validate_tags_from seen ts ≡ none
unfolding validate_tags_from
accepts seen [] l d u = refl
accepts seen (t ∷ ts) l d u =
    let rest = accepts (t.key ∷ seen) ts l.1 d.1 (cons-Unseen seen t.key ts u.1 d.0) in
    ground (arith, l.0, u.0, rest)

-- ValidateTags accepts a tag set exactly if each key has 1 to 128 bytes, each value at most 256, and no two
-- tags have the same key.
pub validate_tags_iff :
    (ts : List Tag) → (validate_tags ts ≡ none) ↔ (All InLimits ts × Distinct ts)
unfolding validate_tags
validate_tags_iff ts =
    (λ h. let (a, b, _) = accepted [] ts h in (a, b), λ (l, d). accepts [] ts l d (nothing_seen ts))
  where
    nothing_seen : (us : List Tag) → Unseen [] us
    nothing_seen [] = tt
    nothing_seen (u ∷ us) = (unfold any in refl, nothing_seen us)
