-- ===== src/Lifecycle/Validate/Laws.antt =====
-- What a configuration that passes validation is known to satisfy.
use opens.Prelude.{
  lt_int, le_int, lt_int→le_int, le_int_refl, le_int_trans, not-le_int, ◌≡◌, ◌≢◌, refl, ap, inl,
  inr, true, false, none, some, List, [], ◌∷◌, Bytes, In, any, eq_bytes, eq_bytes_refl, is_nil,
  if◌then◌else◌, arith, Bool-cases, if_elim, option_elim, ◌∙◌, ⊳-none,
}
use opens.Lifecycle.Config.{Expiration, Transition, Rule, Config}
use opens.Lifecycle.Time.{Dates, parse_date}
use opens.Lifecycle.Filters.{contains}
use opens.Lifecycle.Validate.{
  Scan, start, is_zero, scan_step, check_scan, transitions_loop, validate_rule, rules_loop,
  validate,
}

contains-cons :
    (seen : List Bytes) (x y : Bytes)
    → contains (x ∷ seen) y ≡ false
    → (y ≢ x) × (contains seen y ≡ false)
unfolding contains any
contains-cons seen x y h = (λ e. ground (arith, eq_bytes_refl x, ap (eq_bytes x) e), ground arith)

module _ (dates : Dates) where
  rules_loop-rule :
      (ids : List Bytes) (rs : List Rule) (r : Rule)
      → rules_loop dates ids rs ≡ none
      → In r rs
      → validate_rule dates r ≡ none
  unfolding rules_loop
  rules_loop-rule ids [] r h m = absurd m
  rules_loop-rule ids (q ∷ rs) r h (inl e) = ground arith
  rules_loop-rule ids (q ∷ rs) r h (inr m) =
      rules_loop-rule (if is_nil q.id then ids else q.id ∷ ids) rs r (ground arith) m

  rules_loop-tail :
      (ids : List Bytes) (r : Rule) (rs : List Rule)
      → rules_loop dates ids (r ∷ rs) ≡ none
      → rules_loop dates (if is_nil r.id then ids else r.id ∷ ids) rs ≡ none
  unfolding rules_loop
  rules_loop-tail ids r rs h = ground arith

  rules_loop-unseen :
      (ids : List Bytes) (rs : List Rule) (r : Rule)
      → rules_loop dates ids rs ≡ none
      → In r rs
      → is_nil r.id ≡ false
      → contains ids r.id ≡ false
  unfolding rules_loop
  rules_loop-unseen ids [] r h m n = absurd m
  rules_loop-unseen ids (q ∷ rs) r h (inl e) n = ground arith
  rules_loop-unseen ids (q ∷ rs) r h (inr m) n = ground (
    arith,
    rules_loop-unseen (if is_nil q.id then ids else q.id ∷ ids) rs r (rules_loop-tail ids q rs h) m
        n,
    contains-cons ids q.id r.id,
  )

  -- No two rules of the list share an ID, unless it is empty.
  abbrev pub DistinctIds : List Rule → Type 0
  DistinctIds [] = Unit
  DistinctIds (r ∷ rs) = ((q : Rule) → In q rs → is_nil r.id ≡ false → q.id ≢ r.id) × DistinctIds rs

  rules_loop-DistinctIds :
      (ids : List Bytes) (rs : List Rule) → rules_loop dates ids rs ≡ none → DistinctIds rs
  rules_loop-DistinctIds ids [] h = tt
  rules_loop-DistinctIds ids (r ∷ rs) h =
      let later = rules_loop-tail ids r rs h in
      (
        λ q m n e.
            (contains-cons ids r.id q.id (
                rw n at (
                  rules_loop-unseen (if is_nil r.id then ids else r.id ∷ ids) rs q later m
                    (rw e n)))).0
              e,
        rules_loop-DistinctIds (if is_nil r.id then ids else r.id ∷ ids) rs later,
      )

  -- In a valid configuration the IDs of the rules are distinct, except for rules with an empty
  -- ID.
  pub validate-DistinctIds : (c : Config) → validate dates c ≡ none → DistinctIds c.rules
  unfolding validate
  validate-DistinctIds c h = rules_loop-DistinctIds [] c.rules (⊳-none _ _ h).1

  -- Every rule of a valid configuration has passed all the checks of a rule.
  validate-rule :
      (c : Config) (r : Rule)
      → validate dates c ≡ none
      → In r c.rules
      → validate_rule dates r ≡ none
  unfolding validate
  validate-rule c r h m = rules_loop-rule [] c.rules r (⊳-none _ _ h).1 m

  -- The variables of validateTransitions behind the loop.
  scan : Scan → List Transition → Scan
  scan s [] = s
  scan s (t ∷ ts) = scan (scan_step dates s t) ts

  transitions_loop-scan :
      (r : Rule) (seen : List Bytes) (s : Scan) (ts : List Transition)
      → transitions_loop dates r seen s ts ≡ none
      → check_scan dates r (scan s ts) ≡ none
  unfolding transitions_loop scan
  transitions_loop-scan r seen s [] h = h
  transitions_loop-scan r seen s (t ∷ ts) h =
      transitions_loop-scan r (t.storage_class ∷ seen) (scan_step dates s t) ts (⊳-none _ _ h).1

  scan_step-max :
      (s : Scan) (t : Transition) → le_int s.max_days (scan_step dates s t).max_days ≡ true
  unfolding scan_step
  scan_step-max s t =
      if_elim (λ (n : Scan). le_int s.max_days n.max_days ≡ true) (is_nil t.date) _ _
        (λ _.
          if_elim (λ m. le_int s.max_days m ≡ true) (lt_int s.max_days t.days) t.days s.max_days
            (lt_int→le_int s.max_days t.days) (λ _. le_int_refl s.max_days))
        (λ _.
          option_elim (λ (n : Scan). le_int s.max_days n.max_days ≡ true) (parse_date dates t.date)
            s _ (λ _. le_int_refl s.max_days) (λ _ _. le_int_refl s.max_days))

  scan-max : (s : Scan) (ts : List Transition) → le_int s.max_days (scan s ts).max_days ≡ true
  unfolding scan
  scan-max s [] = le_int_refl s.max_days
  scan-max s (t ∷ ts) =
      le_int_trans s.max_days (scan_step dates s t).max_days _ (scan_step-max s t)
        (scan-max (scan_step dates s t) ts)

  scan_step-days :
      (s : Scan) (t : Transition)
      → t.date ≡ []
      → le_int t.days (scan_step dates s t).max_days ≡ true
  unfolding scan_step
  scan_step-days s t d = rw d (ground (arith, le_int_refl t.days))

  scan-bound :
      (s : Scan) (ts : List Transition) (t : Transition)
      → In t ts
      → t.date ≡ []
      → le_int t.days (scan s ts).max_days ≡ true
  unfolding scan
  scan-bound s [] t m d = absurd m
  scan-bound s (u ∷ ts) t (inl e) d = rw (← e) (
      le_int_trans u.days (scan_step dates s u).max_days _
        (scan_step-days s u (ap (λ (v : Transition). v.date) e ∙ d))
        (scan-max (scan_step dates s u) ts))
  scan-bound s (u ∷ ts) t (inr m) d = scan-bound (scan_step dates s u) ts t m d

  rule-transitions :
      (r : Rule)
      → validate_rule dates r ≡ none
      → check_scan dates r (scan start r.transitions) ≡ none
  unfolding validate_rule
  rule-transitions r h = ground (arith, transitions_loop-scan r [] start r.transitions)

  refused :
      (r : Rule) (e : Expiration) (s : Scan)
      → r.expiration ≡ some e
      → is_zero e.days ≡ false
      → is_nil r.transitions ≡ false
      → le_int e.days s.max_days ≡ true
      → ¬ (check_scan dates r s ≡ none)
  unfolding check_scan
  refused r e s x n l b h = ground arith

  not_nil : (t : Transition) (ts : List Transition) → In t ts → is_nil ts ≡ false
  not_nil t [] m = absurd m
  not_nil t (u ∷ ts) m = refl

  -- In a valid configuration a rule that expires objects by days moves them to a colder class only
  -- before: each of its transitions by days has fewer days.
  pub validate-transition_days :
      (c : Config) (r : Rule) (e : Expiration) (t : Transition)
      → validate dates c ≡ none
      → In r c.rules
      → r.expiration ≡ some e
      → is_zero e.days ≡ false
      → In t r.transitions
      → t.date ≡ []
      → lt_int t.days e.days ≡ true
  validate-transition_days c r e t h m x n i d =
      let s : Scan = scan start r.transitions in
      let checked : check_scan dates r s ≡ none = rule-transitions r (validate-rule c r h m) in
      elim (Bool-cases (le_int e.days t.days)) [
        | inl late ↦
            let bound : le_int e.days s.max_days ≡ true =
              le_int_trans e.days t.days s.max_days late (scan-bound start r.transitions t i d) in
            absurd (refused r e s x n (not_nil t r.transitions i) bound checked)
        | inr early ↦ not-le_int e.days t.days early
      ]
