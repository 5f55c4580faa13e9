-- ===== src/Tests/Glob.antt =====
-- Runs and witnesses for internal/policy/policy.go: `Match`, `SubstituteVars`, `splitOperator`.
use opens.Prelude.{
  ◌≡◌, ◌↔◌, refl, true, false, none, some, [], ◌∷◌, ◌++◌, Bytes, Map, codes, eq_bytes, has_prefix,
  arith, lookup,
}
use opens.Policy.Glob.{match, match_loop, match_fuel}
use opens.Policy.Glob.Spec.{denotes}
use opens.Policy.Glob.Correct.{match-eq-denotes}
use opens.Policy.Glob.Fuel.{match_loop-match}
use opens.Policy.Vars.{find_open, find_close, expand, substitute_vars}
use opens.Policy.Vars.Laws.{substitute_vars-step}
use opens.Policy.Operators.{Condition, string_equals, for_any_value, split_operator}
use opens.Policy.Operators.Names.{print_operator, split_operator_iff}
use opens.Tests.Ascii.{ascii, lower}

match_backtracks : match (codes "a*b?d") (codes "axbxbcd") ≡ true
unfolding match
match_backtracks = refl

match_fails : match (codes "a*b?d") (codes "axbxbc") ≡ false
unfolding match
match_fails = refl

match-eq-denotes_example :
    match (codes "s3:Get*") (codes "s3:GetObject")
    ≡ denotes (codes "s3:Get*") (codes "s3:GetObject")
match-eq-denotes_example = match-eq-denotes (codes "s3:Get*") (codes "s3:GetObject") (omega arith)

match_loop-match_example :
    match_loop (match_fuel (codes "*a*") (codes "bab")) (codes "*a*") (codes "bab") none
    ≡ some (match (codes "*a*") (codes "bab"))
match_loop-match_example = match_loop-match (codes "*a*") (codes "bab")

abbrev user_vars : Map Bytes
user_vars = (codes "aws:username", codes "ann") ∷ []

substitute_home :
    substitute_vars ascii user_vars (codes "home/${aws:Username}/${x}/${*}")
    ≡ codes "home/ann/${x}/*"
unfolding substitute_vars find_open find_close expand has_prefix lookup eq_bytes lower
substitute_home = refl

substitute_vars-step_example :
    substitute_vars ascii user_vars
      (codes "home/" ++ (codes "${" ++ (codes "aws:username" ++ (codes "}" ++ codes "/x"))))
    ≡ codes "home/"
      ++ (expand ascii user_vars (codes "aws:username")
          ++ substitute_vars ascii user_vars (codes "/x"))
substitute_vars-step_example =
    substitute_vars-step ascii user_vars (codes "home/") (codes "aws:username") (codes "/x")
      (unfold find_open has_prefix in refl) (unfold find_close in refl)

abbrev any_equals : Condition
any_equals = record { base = string_equals; modifier = for_any_value; if_exists = true }

split_operator_iff_example :
    (split_operator (codes "ForAnyValue:StringEqualsIfExists") ≡ some any_equals)
    ↔ (codes "ForAnyValue:StringEqualsIfExists" ≡ print_operator any_equals)
split_operator_iff_example =
    split_operator_iff (codes "ForAnyValue:StringEqualsIfExists") any_equals
