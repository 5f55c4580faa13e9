-- ===== src/Lifecycle/Eval/Due.antt =====
-- Nothing is deleted before a rule says that it is due.
use opens.Prelude.{◌≡◌, true, some}
use opens.Lifecycle.Config.{
  Time, Rule, Config, Expiration, NoncurrentVersionExpiration, remove_delete_marker,
  expire_noncurrent_version, expire_current, Action, EvalInput,
}
use opens.Lifecycle.Time.{Dates}
use opens.Lifecycle.Eval.{expiration_due, noncurrent_due, marker_due}

module _ (dates : Dates) (now : Time) (o : EvalInput) where
  -- What a rule has to say for each kind of deletion.
  pub Due : Rule → Action → Type 0
  Due r a = elim a.kind [
    | remove_delete_marker ↦
        (e : Expiration) × (r.expiration ≡ some e) × (marker_due dates now e o ≡ true)
    | expire_noncurrent_version ↦
        (n : NoncurrentVersionExpiration) × (r.noncurrent_version_expiration ≡ some n)
        × (noncurrent_due dates now n o ≡ true)
    | expire_current ↦
        (e : Expiration) × (r.expiration ≡ some e) × (expiration_due dates now e o ≡ true)
    | _ ↦ Unit
  ]
