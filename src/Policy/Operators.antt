-- ===== src/Policy/Operators.antt =====
-- internal/policy/policy.go, `splitOperator` and `negatedOperators`: the names of condition operators.
pub mod Names
use opens.Prelude.{
  ℕ, ◌+◌, ◌-◌, ◌≡◌, refl, Bool, true, false, Option, none, some, List, [], ◌∷◌, ◌++◌, Bytes, Map,
  codes, length, take, drop, eq_bytes, has_suffix, trim_suffix, index_byte, lookup, if◌then◌else◌,
}
use mathlib.Core.Option

-- The base names that `splitOperator` accepts, one constructor each.
pub data Operator : Type 0 where
  string_equals string_not_equals string_equals_ignore_case string_not_equals_ignore_case : Operator
  string_like string_not_like : Operator
  numeric_equals numeric_not_equals numeric_less_than numeric_less_than_equals : Operator
  numeric_greater_than numeric_greater_than_equals : Operator
  date_equals date_not_equals date_less_than date_less_than_equals : Operator
  date_greater_than date_greater_than_equals : Operator
  bool binary_equals ip_address not_ip_address : Operator
  arn_equals arn_like arn_not_equals arn_not_like null : Operator

abbrev pub operators : Map Operator
operators =
    (codes "StringEquals", string_equals)
    ∷ (codes "StringNotEquals", string_not_equals)
    ∷ (codes "StringEqualsIgnoreCase", string_equals_ignore_case)
    ∷ (codes "StringNotEqualsIgnoreCase", string_not_equals_ignore_case)
    ∷ (codes "StringLike", string_like)
    ∷ (codes "StringNotLike", string_not_like)
    ∷ (codes "NumericEquals", numeric_equals)
    ∷ (codes "NumericNotEquals", numeric_not_equals)
    ∷ (codes "NumericLessThan", numeric_less_than)
    ∷ (codes "NumericLessThanEquals", numeric_less_than_equals)
    ∷ (codes "NumericGreaterThan", numeric_greater_than)
    ∷ (codes "NumericGreaterThanEquals", numeric_greater_than_equals)
    ∷ (codes "DateEquals", date_equals)
    ∷ (codes "DateNotEquals", date_not_equals)
    ∷ (codes "DateLessThan", date_less_than)
    ∷ (codes "DateLessThanEquals", date_less_than_equals)
    ∷ (codes "DateGreaterThan", date_greater_than)
    ∷ (codes "DateGreaterThanEquals", date_greater_than_equals)
    ∷ (codes "Bool", bool)
    ∷ (codes "BinaryEquals", binary_equals)
    ∷ (codes "IpAddress", ip_address)
    ∷ (codes "NotIpAddress", not_ip_address)
    ∷ (codes "ArnEquals", arn_equals)
    ∷ (codes "ArnLike", arn_like)
    ∷ (codes "ArnNotEquals", arn_not_equals)
    ∷ (codes "ArnNotLike", arn_not_like)
    ∷ (codes "Null", null)
    ∷ []

-- The set modifier: "", "ForAnyValue" or "ForAllValues".
pub data Modifier : Type 0 where
  single for_any_value for_all_values : Modifier

pub record Condition : Type 0 where
  pub base : Operator
  pub modifier : Modifier
  pub if_exists : Bool

pub split_base : Modifier → Bytes → Option Condition
split_base set op =
    Option.map
      (λ base. record { base = base; modifier = set; if_exists = has_suffix op (codes "IfExists") })
      (lookup (trim_suffix op (codes "IfExists")) operators)

-- splitOperator(op); `none` where `ok` is false
pub split_operator : Bytes → Option Condition
unfolding split_base
split_operator op = elim (index_byte op b':') [
  | none ↦ split_base single op
  | some i ↦
      if eq_bytes (take i op) (codes "ForAnyValue")
      then split_base for_any_value (drop (i + 1) op)
      else if eq_bytes (take i op) (codes "ForAllValues")
      then split_base for_all_values (drop (i + 1) op)
      else none
]

-- negatedOperators
unfoldable pub is_negated : Operator → Bool
is_negated string_not_equals = true
is_negated string_not_equals_ignore_case = true
is_negated string_not_like = true
is_negated numeric_not_equals = true
is_negated date_not_equals = true
is_negated not_ip_address = true
is_negated arn_not_equals = true
is_negated arn_not_like = true
is_negated _ = false
