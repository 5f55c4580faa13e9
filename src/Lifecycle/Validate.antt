-- ===== src/Lifecycle/Validate.antt =====
-- internal/lifecycle/config.go: `Validate` and what it calls. A nil configuration is not modelled.
pub mod Laws
pub mod Overflow
use opens.Prelude.{
  ℕ, ◌+◌, ℤ, pos, negsuc, lt_int, le_int, Bool, true, false, not, ◌&&◌, ◌||◌, Option, none, some,
  List, [], ◌∷◌, Bytes, codes, eq_bytes, any, is_nil, length, ltb, ◌==◌, if◌then◌else◌, fail_if,
  ◌⊳◌, first_error,
}
use opens.Lifecycle.Config.{
  Time, Tag, And, Filter, Expiration, NoncurrentVersionExpiration, Transition,
  NoncurrentVersionTransition, AbortIncompleteMultipartUpload, Rule, Config,
}
use opens.Lifecycle.Filters.{
  Violation, bad_date, bad_id_length, bad_initiation_days, bad_newer_versions, bad_noncurrent_days,
  bad_size, bad_tag, contains, duplicate_class, duplicate_id, duplicate_tag,
  expiration_before_transition, is_some, malformed, mixed_days_and_dates, no_action, one_if,
  tags_forbidden, valid_transition_class, validate_and, validate_filter, validate_sizes,
  validate_tags,
}
use opens.Lifecycle.Time.{Dates, parse_date}

-- n == 0 on int
abbrev pub is_zero : ℤ → Bool
is_zero (pos n) = n == 0
is_zero (negsuc n) = false

-- hasTags of Validate
unfoldable pub has_tags : Rule → Bool
has_tags r = elim r.filter [
  | none ↦ false
  | some f ↦ is_some f.tag || elim f.and [ none ↦ false | some a ↦ not (is_nil a.tags) ]
]

validate_noncurrent_expiration : NoncurrentVersionExpiration → Option Violation
validate_noncurrent_expiration n =
    fail_if (le_int n.noncurrent_days (pos 0)) bad_noncurrent_days
    ⊳ fail_if
        (lt_int n.newer_noncurrent_versions (pos 0) || lt_int (pos 100) n.newer_noncurrent_versions)
        bad_newer_versions

validate_abort : Bool → AbortIncompleteMultipartUpload → Option Violation
validate_abort tagged a =
    fail_if (le_int a.days_after_initiation (pos 0)) bad_initiation_days
    ⊳ fail_if tagged tags_forbidden

-- The loop over NoncurrentVersionTransitions, with the classes seen so far.
unfoldable pub validate_noncurrent_transitions :
    Rule → List Bytes → List NoncurrentVersionTransition → Option Violation
unfolding valid_transition_class contains
validate_noncurrent_transitions r seen [] = none
validate_noncurrent_transitions r seen (t ∷ ts) =
    fail_if (not (valid_transition_class t.storage_class)) malformed
    ⊳ (fail_if (contains seen t.storage_class) duplicate_class
        ⊳ (fail_if (lt_int t.noncurrent_days (pos 0)) bad_noncurrent_days
            ⊳ (fail_if
                  (lt_int t.newer_noncurrent_versions (pos 0)
                    || lt_int (pos 100) t.newer_noncurrent_versions)
                  bad_newer_versions
                ⊳ (fail_if
                      (elim r.noncurrent_version_expiration [
                        | none ↦ false
                        | some n ↦ le_int n.noncurrent_days t.noncurrent_days
                      ])
                      expiration_before_transition
                    ⊳ validate_noncurrent_transitions r (t.storage_class ∷ seen) ts))))

-- The variables of validateTransitions.
pub record Scan : Type 0 where
  pub by_days : Bool
  pub by_date : Bool
  pub max_days : ℤ
  pub max_date : Time

abbrev pub start : Scan
start = record { by_days = false; by_date = false; max_days = negsuc 0; max_date = 0 }

module _ (dates : Dates) where
  -- validateExpiration(e, hasTags)
  unfoldable pub validate_expiration : Option Expiration → Bool → Option Violation
  unfolding one_if
  validate_expiration none tagged = none
  validate_expiration (some e) tagged =
      fail_if
        (not (
            one_if (not (is_zero e.days))
              + one_if (not (is_nil e.date))
              + one_if (is_some e.expired_object_delete_marker)
            == 1)
          || lt_int e.days (pos 0))
        malformed
      ⊳ (fail_if (not (is_nil e.date) && not (is_some (parse_date dates e.date))) bad_date
          ⊳ fail_if ((elim e.expired_object_delete_marker [ none ↦ false | some b ↦ b ]) && tagged)
              tags_forbidden)

  -- One round of the loop of validateTransitions behind its checks.
  unfoldable pub scan_step : Scan → Transition → Scan
  scan_step s t =
      if is_nil t.date
      then record s {
        by_days = true;
        max_days = if lt_int s.max_days t.days then t.days else s.max_days;
      }
      else elim (parse_date dates t.date) [
        | none ↦ s
        | some d ↦ record s {
          by_date = true;
          max_date = if ltb s.max_date d then d else s.max_date;
        }
      ]

  -- The checks of one round, with the classes seen so far.
  unfoldable pub check_transition : List Bytes → Transition → Option Violation
  unfolding valid_transition_class contains
  check_transition seen t =
      fail_if (not (valid_transition_class t.storage_class)) malformed
      ⊳ (fail_if (contains seen t.storage_class) duplicate_class
          ⊳ (fail_if (lt_int t.days (pos 0)) malformed
              ⊳ fail_if (not (is_nil t.date) && not (is_some (parse_date dates t.date))) bad_date))

  -- The tests behind the loop.
  unfoldable pub check_scan : Rule → Scan → Option Violation
  check_scan r s = fail_if (s.by_days && s.by_date) mixed_days_and_dates ⊳ elim r.expiration [
    | none ↦ none
    | some e ↦
        if is_nil r.transitions
        then none
        else if (not (is_zero e.days) && s.by_date) || (not (is_nil e.date) && s.by_days)
        then some mixed_days_and_dates
        else if not (is_zero e.days) && le_int e.days s.max_days
        then some expiration_before_transition
        else if is_nil e.date
        then none
        else elim (parse_date dates e.date) [
          | none ↦ some expiration_before_transition
          | some d ↦ fail_if (not (ltb s.max_date d)) expiration_before_transition
        ]
  ]

  -- validateTransitions(r): the loop, from what was seen and scanned so far
  unfoldable pub transitions_loop : Rule → List Bytes → Scan → List Transition → Option Violation
  transitions_loop r seen s [] = check_scan r s
  transitions_loop r seen s (t ∷ ts) =
      check_transition seen t ⊳ transitions_loop r (t.storage_class ∷ seen) (scan_step s t) ts

  -- One round of Validate behind the check of the ID.
  unfoldable pub validate_rule : Rule → Option Violation
  unfolding validate_noncurrent_expiration validate_abort
  validate_rule r =
      fail_if (if is_some r.prefix then is_some r.filter else not (is_some r.filter)) malformed
      ⊳ (validate_filter r.filter
          ⊳ (fail_if
                (not (is_some r.expiration)
                  && (not (is_some r.noncurrent_version_expiration)
                      && (not (is_some r.abort_incomplete_multipart_upload)
                          && (is_nil r.transitions && is_nil r.noncurrent_version_transitions))))
                no_action
              ⊳ (validate_expiration r.expiration (has_tags r)
                  ⊳ ((elim r.noncurrent_version_expiration [
                    | none ↦ none
                    | some n ↦ validate_noncurrent_expiration n
                  ])
                      ⊳ ((elim r.abort_incomplete_multipart_upload [
                        | none ↦ none
                        | some a ↦ validate_abort (has_tags r) a
                      ])
                          ⊳ (transitions_loop r [] start r.transitions
                              ⊳ validate_noncurrent_transitions r []
                                  r.noncurrent_version_transitions))))))

  -- The loop of Validate, with the IDs seen so far.
  unfoldable pub rules_loop : List Bytes → List Rule → Option Violation
  rules_loop ids [] = none
  rules_loop ids (r ∷ rs) =
      fail_if
        (not (eq_bytes r.status (codes "Enabled")) && not (eq_bytes r.status (codes "Disabled")))
        malformed
      ⊳ (fail_if (ltb 255 (length r.id)) bad_id_length
          ⊳ (fail_if (not (is_nil r.id) && contains ids r.id) duplicate_id
              ⊳ (validate_rule r ⊳ rules_loop (if is_nil r.id then ids else r.id ∷ ids) rs)))

  -- Validate(c)
  unfoldable pub validate : Config → Option Violation
  unfolding rules_loop
  validate c =
      fail_if (is_nil c.rules || ltb 1000 (length c.rules)) malformed ⊳ rules_loop [] c.rules
