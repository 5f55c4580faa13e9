-- ===== src/Service/Conditions/Numbered.antt =====
-- internal/object/service.go: the version IDs of `versionIDFor`.
use opens.Prelude.{
  ℕ, ◌<◌, ◌≡◌, refl, ◌⊎◌, inl, inr, some, Bytes, codes, eq_bytes, length, Bool-cases,
}
use opens.Meta.Keys.{null_version_id, seq_from_version_id}
use opens.Meta.Keys.Split.{seq_from_version_id-new_version_id}
use opens.Meta.Types.{Bucket}
use opens.Service.Conditions.{version_id_for}

-- The version ID of a write is "null" or holds its number.
pub version_id_for-numbered :
    (b : Bucket) (seq : ℕ) (random : Bytes)
    → seq < 18446744073709551616
    → length random ≡ 16
    → (version_id_for b seq random ≡ null_version_id)
      ⊎ (seq_from_version_id (version_id_for b seq random) ≡ some seq)
unfolding version_id_for
version_id_for-numbered b seq random small digits =
    elim (Bool-cases (eq_bytes b.versioning (codes "Enabled"))) [
      | inl e ↦ inr (rw e (seq_from_version_id-new_version_id seq random small digits))
      | inr e ↦ inl (rw e refl)
    ]
