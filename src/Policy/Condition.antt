-- ===== src/Policy/Condition.antt =====
-- internal/policy/policy.go: `evalCondition`, `matchOne` and what they call.
pub mod Laws
use opens.Prelude.{
  ℕ, zero, suc, ◌+◌, ◌-◌, ◌≡◌, Bool, true, false, not, ◌&&◌, ◌||◌, Option, none, some, List, [],
  ◌∷◌, ◌++◌, map, Bytes, Map, codes, eq_bytes, index_byte, lookup, any, all, is_nil, take, drop,
  if◌then◌else◌, ◌==◌,
}
use mathlib.Core.Option
use opens.Policy.Std.{Std}
use opens.Policy.Glob.{match}
use opens.Policy.Vars.{substitute_vars}
use opens.Policy.Document.{Args}
use opens.Policy.Operators.{
  Operator, string_equals, string_not_equals, string_equals_ignore_case,
  string_not_equals_ignore_case, string_like, string_not_like, numeric_equals, numeric_not_equals,
  numeric_less_than, numeric_less_than_equals, numeric_greater_than, numeric_greater_than_equals,
  date_equals, date_not_equals, date_less_than, date_less_than_equals, date_greater_than,
  date_greater_than_equals, bool, binary_equals, ip_address, not_ip_address, arn_equals, arn_like,
  arn_not_equals, arn_not_like, null, Modifier, single, for_any_value, for_all_values, Condition,
  split_operator, is_negated,
}

-- strings.SplitN(s, ":", n): at most n parts, the last with all that is left
pub split_colon : ℕ → Bytes → List Bytes
split_colon zero s = []
split_colon (suc zero) s = s ∷ []
split_colon (suc n) s = elim (index_byte s b':') [
  | none ↦ s ∷ []
  | some i ↦ take i s ∷ split_colon n (drop (i + 1) s)
]

module _ (std : Std) where
  open std use {
    to_lower, equal_fold, Float, parse_float, float_eq, float_lt, float_le, Time, parse_rfc3339,
    parse_unix, time_equal, before, Ip, parse_ip, is_v4, parse_cidr, contains,
  }

  -- The loop of arnMatch over the fields: letter case is folded in all but the last.
  fields_match : List Bytes → List Bytes → Bool
  fields_match (p ∷ []) (a ∷ []) = match p a
  fields_match (p ∷ pp) (a ∷ ap) = match (to_lower p) (to_lower a) && fields_match pp ap
  fields_match _ _ = false

  -- arnMatch(pattern, arn): both have six fields, and they match one by one
  pub arn_match : Bytes → Bytes → Bool
  unfolding fields_match
  arn_match pattern arn = elim (split_colon 6 pattern) [
    | p0 ∷ p1 ∷ p2 ∷ p3 ∷ p4 ∷ p5 ∷ [] ↦ elim (split_colon 6 arn) [
      | a0 ∷ a1 ∷ a2 ∷ a3 ∷ a4 ∷ a5 ∷ [] ↦
          fields_match (p0 ∷ p1 ∷ p2 ∷ p3 ∷ p4 ∷ p5 ∷ []) (a0 ∷ a1 ∷ a2 ∷ a3 ∷ a4 ∷ a5 ∷ [])
      | _ ↦ false
    ]
    | _ ↦ false
  ]

  -- parseDate(s)
  unfoldable pub parse_date : Bytes → Option Time
  parse_date s = elim (parse_rfc3339 s) [ some t ↦ some t | none ↦ parse_unix s ]

  -- The inner `switch op` of the numeric operators on `h` (have) and `x` (wanted).
  numeric_test : Operator → Float → Float → Bool
  numeric_test numeric_equals h x = float_eq h x
  numeric_test numeric_not_equals h x = float_eq h x
  numeric_test numeric_less_than h x = float_lt h x
  numeric_test numeric_less_than_equals h x = float_le h x
  numeric_test numeric_greater_than h x = float_lt x h
  numeric_test _ h x = float_le x h

  -- The inner `switch op` of the date operators; `!h.After(x)` is `!x.Before(h)`.
  date_test : Operator → Time → Time → Bool
  date_test date_equals h x = time_equal h x
  date_test date_not_equals h x = time_equal h x
  date_test date_less_than h x = before h x
  date_test date_less_than_equals h x = not (before x h)
  date_test date_greater_than h x = before x h
  date_test _ h x = not (before h x)

  -- anyOf(want, ...) over wanted values that have to parse
  any_parsed : {A : Type 0} → (Bytes → Option A) → (A → Bool) → List Bytes → Bool
  any_parsed parse test want = any (λ w. elim (parse w) [ none ↦ false | some x ↦ test x ]) want

  -- The numeric and date cases: false if the request's value does not parse, also when negated.
  compare_with :
      {A : Type 0} → (Bytes → Option A) → (A → A → Bool) → Bool → Bytes → List Bytes → Bool
  unfolding any_parsed
  compare_with parse test negated have want = elim (parse have) [
    | none ↦ false
    | some h ↦ let res = any_parsed parse (test h) want in if negated then not res else res
  ]

  -- The IP case: a wanted value with no `/` is one address.
  with_mask : Ip → Bytes → Bytes
  with_mask ip w =
      if any (λ c. c == b'/') w then w else if is_v4 ip then w ++ codes "/32" else w ++ codes "/128"

  ip_matches : Bytes → List Bytes → Bool
  unfolding with_mask
  ip_matches have want = elim (parse_ip have) [
    | none ↦ false
    | some ip ↦
        any (λ w. elim (parse_cidr (with_mask ip w)) [ none ↦ false | some n ↦ contains n ip ]) want
  ]

  -- matchOne(op, have, want)
  pub match_one : Operator → Bytes → List Bytes → Bool
  unfolding compare_with ip_matches numeric_test date_test
  match_one string_equals have want = any (λ w. eq_bytes have w) want
  match_one string_not_equals have want = not (any (λ w. eq_bytes have w) want)
  match_one string_equals_ignore_case have want = any (λ w. equal_fold have w) want
  match_one string_not_equals_ignore_case have want = not (any (λ w. equal_fold have w) want)
  match_one string_like have want = any (λ w. match w have) want
  match_one string_not_like have want = not (any (λ w. match w have) want)
  match_one numeric_equals have want =
      compare_with parse_float (numeric_test numeric_equals) false have want
  match_one numeric_not_equals have want =
      compare_with parse_float (numeric_test numeric_not_equals) true have want
  match_one numeric_less_than have want =
      compare_with parse_float (numeric_test numeric_less_than) false have want
  match_one numeric_less_than_equals have want =
      compare_with parse_float (numeric_test numeric_less_than_equals) false have want
  match_one numeric_greater_than have want =
      compare_with parse_float (numeric_test numeric_greater_than) false have want
  match_one numeric_greater_than_equals have want =
      compare_with parse_float (numeric_test numeric_greater_than_equals) false have want
  match_one date_equals have want = compare_with parse_date (date_test date_equals) false have want
  match_one date_not_equals have want =
      compare_with parse_date (date_test date_not_equals) true have want
  match_one date_less_than have want =
      compare_with parse_date (date_test date_less_than) false have want
  match_one date_less_than_equals have want =
      compare_with parse_date (date_test date_less_than_equals) false have want
  match_one date_greater_than have want =
      compare_with parse_date (date_test date_greater_than) false have want
  match_one date_greater_than_equals have want =
      compare_with parse_date (date_test date_greater_than_equals) false have want
  match_one bool have want = any (λ w. equal_fold have w) want
  match_one binary_equals have want = any (λ w. eq_bytes have w) want
  match_one ip_address have want = ip_matches have want
  match_one not_ip_address have want = not (ip_matches have want)
  match_one arn_equals have want = any (λ w. arn_match w have) want
  match_one arn_like have want = any (λ w. arn_match w have) want
  match_one arn_not_equals have want = not (any (λ w. arn_match w have) want)
  match_one arn_not_like have want = not (any (λ w. arn_match w have) want)
  match_one null have want = false

  -- The switch on the set modifier, for a key that the request has a value for.
  by_modifier : Modifier → Operator → Bytes → List Bytes → List Bytes → Bool
  by_modifier for_all_values base first rest want = all (λ h. match_one base h want) (first ∷ rest)
  by_modifier for_any_value base first rest want = any (λ h. match_one base h want) (first ∷ rest)
  by_modifier single base first rest want = match_one base first want

  is_single : Modifier → Bool
  is_single single = true
  is_single _ = false

  is_for_all : Modifier → Bool
  is_for_all for_all_values = true
  is_for_all _ = false

  -- The branch `!present || len(have) == 0`
  pub when_absent : Condition → Bool
  unfolding is_single is_for_all
  when_absent c =
      c.if_exists || (is_for_all c.modifier || (is_single c.modifier && is_negated c.base))

  wants_null : List Bytes → Bool
  wants_null [] = false
  wants_null (w ∷ want) = equal_fold w (codes "true")

  -- What one operator says of the values that the request has for a key, `[]` if it has none.
  pub eval_values : Condition → List Bytes → List Bytes → Bool
  unfolding by_modifier when_absent wants_null
  eval_values c [] want = elim c.base [ null ↦ wants_null want | _ ↦ when_absent c ]
  eval_values c (h ∷ have) want = elim c.base [
    | null ↦ not (wants_null want)
    | base ↦ by_modifier c.modifier base h have want
  ]

  -- One round of the loop of evalCondition.
  pub eval_key : Condition → Args → Bytes × List Bytes → Bool
  unfolding eval_values
  eval_key c a (key, want) =
      eval_values c (Option.get_or (lookup (to_lower key) a.conditions) [])
        (map (substitute_vars std a.vars) want)

  -- evalCondition(op, keys, a). For an unknown operator the base is "", which is not negated and
  -- which matchOne refuses, so every key fails.
  unfoldable pub eval_condition : Args → Bytes × Map (List Bytes) → Bool
  unfolding eval_key
  eval_condition a (op, keys) = elim (split_operator op) [
    | none ↦ is_nil keys
    | some c ↦ all (eval_key c a) keys
  ]
