-- ===== src/Lifecycle/Validate/Overflow.antt =====
-- `Validate` sets no upper bound on Days, and `expiresAt` computes with an int64 of nanoseconds.
use opens.Prelude.{
  ℕ, ◌≤◌, ◌≡◌, pos, true, false, none, some, [], ◌∷◌, codes, eq_bytes, has_prefix, arith,
}
use opens.Lifecycle.Config.{Config, EvalInput, expire_current, Time}
use opens.Lifecycle.Time.{Dates}
use opens.Lifecycle.Time.Laws.{is_due-overflow}
use opens.Lifecycle.Eval.{
  eval, rule_action, eval_current, expiration_due, consider, rule_matches, filter_prefix, kind_rank,
}
use opens.Lifecycle.Filters.{validate_filter}
use opens.Lifecycle.Validate.{
  validate, validate_rule, rules_loop, transitions_loop, check_scan, validate_expiration,
  validate_noncurrent_transitions,
}

-- One enabled rule that expires every object after n days.
abbrev pub expires_after : ℕ → Config
expires_after n = record {
  rules =
      record {
        id = [];
        status = codes "Enabled";
        prefix = some [];
        filter = none;
        expiration = some (record { days = pos n; date = []; expired_object_delete_marker = none });
        noncurrent_version_expiration = none;
        abort_incomplete_multipart_upload = none;
        transitions = [];
        noncurrent_version_transitions = [];
      }
      ∷ [];
}

module _ (dates : Dates) where
  -- The rule passes validation, however many days.
  expires_after-valid : (n : ℕ) → 1 ≤ n → validate dates (expires_after n) ≡ none
  unfolding validate rules_loop validate_rule validate_filter validate_expiration transitions_loop
      check_scan validate_noncurrent_transitions eq_bytes
  expires_after-valid n h = ground arith

  -- A rule of 106752 to 213502 days (some 292 to 584 years) passes validation, and expires a current
  -- object at any time from the object's own on.
  pub validate-overflow :
      (now : Time) (o : EvalInput) (n : ℕ)
      → 106752 ≤ n
      → n ≤ 213502
      → o.is_latest ≡ true
      → o.delete_marker ≡ false
      → o.mod_time ≤ now
      → (validate dates (expires_after n) ≡ none)
        × ((eval dates now (expires_after n) o).kind ≡ expire_current)
  unfolding eval rule_action eval_current expiration_due consider rule_matches filter_prefix
      kind_rank has_prefix eq_bytes
  validate-overflow now o n h k l m t = (
    expires_after-valid n (omega arith),
    rw (l, m) (ground (arith, is_due-overflow now o.mod_time n h k t)),
  )
