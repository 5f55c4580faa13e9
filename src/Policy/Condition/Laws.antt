-- ===== src/Policy/Condition/Laws.antt =====
-- Negated operators against the operators that they negate.
use opens.Prelude.{◌≡◌, refl, Bool, true, false, not, Option, some, List, Bytes, arith}
use opens.Policy.Std.{Std}
use opens.Policy.Operators.{
  Operator, string_equals, string_not_equals, string_equals_ignore_case,
  string_not_equals_ignore_case, string_like, string_not_like, numeric_equals, numeric_not_equals,
  date_equals, date_not_equals, ip_address, not_ip_address, arn_equals, arn_like, arn_not_equals,
  arn_not_like, is_negated,
}
use opens.Policy.Condition.{match_one, compare_with, parse_date}

-- The operator that a negated one negates.
abbrev pub positive : Operator → Operator
positive string_not_equals = string_equals
positive string_not_equals_ignore_case = string_equals_ignore_case
positive string_not_like = string_like
positive numeric_not_equals = numeric_equals
positive date_not_equals = date_equals
positive not_ip_address = ip_address
positive arn_not_equals = arn_equals
positive arn_not_like = arn_like
positive o = o

module _ (std : Std) where
  -- The request's value can be read: only the equality of numbers and dates asks this.
  abbrev pub Readable : Operator → Bytes → Type 0
  Readable numeric_not_equals have = (x : std.Float) × (std.parse_float have ≡ some x)
  Readable date_not_equals have = (t : std.Time) × (parse_date std have ≡ some t)
  Readable _ have = Unit

  compare_with-not :
      {A : Type 0} (parse : Bytes → Option A) (test : A → A → Bool) (have : Bytes)
      (want : List Bytes) (x : A)
      → parse have ≡ some x
      → compare_with std parse test true have want
        ≡ not (compare_with std parse test false have want)
  unfolding compare_with
  compare_with-not parse test have want x r = rw (r, compare_with)

  -- On a value that can be read, a negated operator answers the opposite of what it negates.
  pub match_one-not-positive :
      (o : Operator) (have : Bytes) (want : List Bytes)
      → is_negated o ≡ true
      → Readable o have
      → match_one std o have want ≡ not (match_one std (positive o) have want)
  unfolding match_one is_negated
  match_one-not-positive string_not_equals have want n r = refl
  match_one-not-positive numeric_not_equals have want n (x, r) =
      compare_with-not std.parse_float std.float_eq have want x r
  match_one-not-positive date_not_equals have want n (x, r) =
      compare_with-not (parse_date std) std.time_equal have want x r
  match_one-not-positive _ have want n r = ground arith
