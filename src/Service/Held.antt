-- ===== src/Service/Held.antt =====
-- A version under compliance retention, as object lock in internal/object keeps it.
use opens.Prelude.{
  ℕ, ◌≤◌, ◌<◌, ◌≡◌, refl, ap, ◌∙◌, inl, inr, Bool, true, some, Bytes, codes, eq_bytes,
  eq_bytes_refl, ltb, arith, Bool-cases,
}
use opens.Kv.{Engine}
use opens.Meta.Keys.{object_key}
use opens.Meta.Types.{Time, Retention, Object}
use opens.Meta.Store.{Codec}
use opens.Service.Lock.{DeleteError, legal_hold, worm_protected, check_locked}

-- Compliance retention up to a time.
abbrev pub Compliant : Time → Object → Type 0
Compliant t o =
    (r : Retention) × (o.retention ≡ some r) × (r.mode ≡ codes "COMPLIANCE") × (t ≤ r.retain_until)

-- Before that time it locks the version, whatever the request asks to bypass.
pub Compliant-locked :
    (t now : Time) (o : Object) (bypass : Bool)
    → Compliant t o
    → now < t
    → (e : DeleteError) × (check_locked now o bypass ≡ some e)
unfolding check_locked
Compliant-locked t now o bypass (r, er, em, le) h =
    let mode : eq_bytes r.mode (codes "COMPLIANCE") ≡ true =
      ap (λ m. eq_bytes m (codes "COMPLIANCE")) em ∙ eq_bytes_refl (codes "COMPLIANCE") in
    let later : ltb now r.retain_until ≡ true = ground (arith, le, h) in
    elim (Bool-cases o.legal_hold) [
      | inl held ↦ (legal_hold, rw held refl)
      | inr free ↦ (worm_protected, rw (free, er, later, mode) refl)
    ]

module _ (kv : Engine) (objects : Codec Object) (t : Time) (b k : Bytes) (s : ℕ) where
  -- The version is stored, under compliance retention up to the time.
  abbrev pub Held : kv.Txn → Type 0
  Held tx = (o : Object) × (kv.get tx (object_key b k s) ≡ some (objects.encode o)) × Compliant t o
