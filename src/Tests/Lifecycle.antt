-- ===== src/Tests/Lifecycle.antt =====
-- Runs and witnesses for internal/lifecycle.
use opens.Prelude.{
  pos, ◌+◌, ◌*◌, ◌%◌, ◌≤◌, ◌<◌, ◌≡◌, inl, refl, true, false, none, some, [], ◌∷◌, codes, eq_bytes,
  has_prefix, lt_int, arith, any,
}
use opens.Lifecycle.Config.{Time, Rule, Config, EvalInput, Expiration, Transition, expire_current}
use opens.Lifecycle.Time.{
  Dates, day, expires_at, is_due, next_midnight, add_duration, days_duration,
}
use opens.Lifecycle.Time.Laws.{expires_at-midnight}
use opens.Lifecycle.Eval.{
  eval, kind_rank, rule_action, rule_matches, filter_prefix, eval_current, expiration_due,
}
use opens.Lifecycle.Eval.Best.{NotBetter, eval-best}
use opens.Lifecycle.Eval.Kinds.{Fits, eval-Fits}
use opens.Lifecycle.Eval.Due.{Due}
use opens.Lifecycle.Filters.{valid_transition_class, validate_filter, one_if, contains}
use opens.Lifecycle.Validate.{
  validate, validate_rule, rules_loop, transitions_loop, check_scan, check_transition, scan_step,
  validate_expiration, validate_noncurrent_transitions, has_tags,
}
use opens.Lifecycle.Validate.Laws.{DistinctIds, validate-DistinctIds, validate-transition_days}
use opens.Lifecycle.Validate.Overflow.{expires_after, validate-overflow}

-- Dates that never parse: the rules here are by days.
abbrev no_dates : Dates
no_dates = record { parse_rfc3339 = λ s. none; parse_bare = λ s. none }

-- An object that is written at noon of day 738000, in July 2021.
abbrev noon : Time
noon = 738000 * day + 43200000000000

abbrev photo : EvalInput
photo = record {
  key = codes "photos/a";
  size = pos 1000;
  tags = [];
  mod_time = noon;
  storage_class = codes "STANDARD";
  is_latest = true;
  delete_marker = false;
  is_null = true;
  has_older_versions = false;
  noncurrent_since = 0;
  newer_noncurrent_count = pos 0;
}

abbrev expiration : Expiration
expiration = record { days = pos 90; date = []; expired_object_delete_marker = none }

abbrev to_glacier : Transition
to_glacier = record { days = pos 30; date = []; storage_class = codes "GLACIER" }

abbrev archive : Rule
archive = record {
  id = codes "archive";
  status = codes "Enabled";
  prefix = some (codes "photos/");
  filter = none;
  expiration = some expiration;
  noncurrent_version_expiration = none;
  abort_incomplete_multipart_upload = none;
  transitions = to_glacier ∷ [];
  noncurrent_version_transitions = [];
}

abbrev logs : Rule
logs = record archive { id = codes "logs"; prefix = some (codes "logs/"); transitions = [] }

abbrev rules : Config
rules = record { rules = archive ∷ logs ∷ [] }

rules-is_valid : validate no_dates rules ≡ none
unfolding validate rules_loop validate_rule transitions_loop check_scan check_transition scan_step
    valid_transition_class validate_filter validate_expiration validate_noncurrent_transitions
    one_if has_tags contains eq_bytes any
rules-is_valid = refl

expires_at-midnight_example :
    (expires_at noon (pos 90) % day ≡ 0)
    × (noon + 90 * day ≤ expires_at noon (pos 90))
    × (expires_at noon (pos 90) < noon + 90 * day + day)
expires_at-midnight_example = expires_at-midnight noon 90 (omega arith)

validate-overflow_example :
    (validate no_dates (expires_after 106752) ≡ none)
    × ((eval no_dates noon (expires_after 106752) photo).kind ≡ expire_current)
validate-overflow_example =
    validate-overflow no_dates noon photo 106752 (omega arith) (omega arith) refl refl (omega arith)

-- Half a year later.
abbrev later : Time
later = noon + 180 * day

archive-offers : kind_rank (rule_action no_dates later photo archive).kind ≡ 5
unfolding rule_action rule_matches filter_prefix eval_current expiration_due is_due expires_at
    kind_rank has_prefix eq_bytes next_midnight add_duration days_duration
archive-offers = refl

eval-best_example :
    NotBetter (rule_action no_dates later photo archive) (eval no_dates later rules photo)
eval-best_example =
    eval-best no_dates later photo rules archive (inl refl) (rw archive-offers (omega arith))

eval-Fits_example : Fits photo (eval no_dates later rules photo)
eval-Fits_example = eval-Fits no_dates later photo rules

validate-DistinctIds_example : DistinctIds no_dates (archive ∷ logs ∷ [])
validate-DistinctIds_example = validate-DistinctIds no_dates rules rules-is_valid

validate-transition_days_example : lt_int (pos 30) (pos 90) ≡ true
validate-transition_days_example =
    validate-transition_days no_dates rules archive expiration to_glacier rules-is_valid (inl refl)
      refl refl (inl refl) refl
