-- ===== src/Policy/Evaluate.antt =====
-- internal/policy/policy.go: `Document.Evaluate`, `Statement.matches`, `Principal.matches` and the
-- two loops over patterns.
pub mod Laws
use opens.Prelude.{
  Bool, true, false, not, ◌&&◌, ◌||◌, Option, none, some, List, [], ◌∷◌, ◌++◌, Bytes, Map, codes,
  eq_bytes, any, all, is_nil, if◌then◌else◌,
}
use opens.Policy.Std.{Std}
use opens.Policy.Glob.{match}
use opens.Policy.Vars.{substitute_vars}
use opens.Policy.Document.{
  Effect, allow, deny, Principal, Statement, Document, Args, Decision, no_match, allowed, denied,
}
use opens.Policy.Condition.{eval_condition}

module _ (std : Std) where
  -- Principal.matches(a)
  unfoldable pub principal_matches : Principal → Args → Bool
  principal_matches p a =
      if p.everyone
      then true
      else if a.anonymous
      then false
      else any
          (λ s.
            eq_bytes s a.principal_arn || (not (is_nil a.principal_arn) && match s a.principal_arn))
          p.aws
        || (any (λ s. eq_bytes s a.canonical_id) p.canonical
            || any (λ s. eq_bytes s a.principal_arn) p.federated)

  -- matchAny(patterns, s, false), as Statement.matches calls it
  unfoldable pub match_any : List Bytes → Bytes → Bool
  match_any patterns s = any (λ p. match (std.to_lower p) (std.to_lower s)) patterns

  -- matchAnyVars(patterns, s, vars)
  unfoldable pub match_any_vars : List Bytes → Bytes → Map Bytes → Bool
  match_any_vars patterns s vars = any (λ p. match (substitute_vars std vars p) s) patterns

  -- The first two tests of Statement.matches.
  principal_applies : Statement → Args → Bool
  unfolding principal_matches
  principal_applies st a =
      (elim st.principal [ none ↦ true | some p ↦ principal_matches p a ])
      && (elim st.not_principal [ none ↦ true | some p ↦ not (principal_matches p a) ])

  -- Statement.matches(a)
  unfoldable pub statement_matches : Statement → Args → Bool
  unfolding principal_applies match_any match_any_vars
  statement_matches st a =
      principal_applies st a
      && ((is_nil st.actions || match_any st.actions a.action)
          && ((is_nil st.not_actions || not (match_any st.not_actions a.action))
              && ((is_nil st.resources || match_any_vars st.resources a.resource a.vars)
                  && ((is_nil st.not_resources
                        || not (match_any_vars st.not_resources a.resource a.vars))
                      && all (eval_condition std a) st.conditions))))

  -- The loop of Evaluate, from the decision so far.
  pub evaluate_loop : Args → Decision → List Statement → Decision
  evaluate_loop a res [] = res
  evaluate_loop a res (st ∷ sts) =
      let keep = evaluate_loop a res sts in
      let allow_it = evaluate_loop a allowed sts in
      if not (statement_matches st a)
      then keep
      else elim st.effect [ deny ↦ denied | allow ↦ allow_it ]

  -- Document.Evaluate(a)
  unfoldable pub evaluate : Document → Args → Decision
  unfolding evaluate_loop
  evaluate d a = evaluate_loop a no_match d.statements
