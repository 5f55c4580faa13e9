-- ===== src/Policy/Evaluate/Laws.antt =====
-- What `Evaluate` promises: an explicit deny wins, then an allow, and the order of statements and of
-- conditions does not matter. And what it misses for texts with a `*` in them.
use opens.Prelude.{
  ℕ, ◌≡◌, refl, ap, Bool, true, false, ◌&&◌, ◌||◌, none, List, [], ◌∷◌, ◌++◌, Bytes, Map, any,
  is_nil, arith, any-Perm, all-Perm,
}
use mathlib.Core.List.{Perm}
use opens.Policy.Std.{Std}
use opens.Policy.Glob.Sound.{match-star_missed}
use opens.Policy.Vars.{find_open}
use opens.Policy.Vars.Laws.{substitute_vars-none}
use opens.Policy.Document.{
  allow, deny, Statement, Document, Args, Decision, no_match, allowed, denied,
}
use opens.Policy.Condition.{eval_condition}
use opens.Policy.Evaluate.{statement_matches, evaluate, evaluate_loop, match_any_vars}

-- The decision from what the statements say: whether one denies, and whether one allows.
abbrev pub verdict : Bool → Bool → Decision
verdict true _ = denied
verdict false true = allowed
verdict false false = no_match

-- Two documents joined: a deny of either wins, then an allow of either.
abbrev pub join : Decision → Decision → Decision
join denied d = denied
join allowed denied = denied
join allowed _ = allowed
join no_match d = d

module _ (std : Std) where
  abbrev pub denies : Args → Statement → Bool
  denies a st = statement_matches std st a && elim st.effect [ deny ↦ true | allow ↦ false ]

  abbrev pub allows : Args → Statement → Bool
  allows a st = statement_matches std st a && elim st.effect [ deny ↦ false | allow ↦ true ]

  evaluate_loop-verdict :
      (a : Args) (res : Bool) (sts : List Statement)
      → evaluate_loop std a (verdict false res) sts
        ≡ verdict (any (denies a) sts) (res || any (allows a) sts)
  unfolding evaluate_loop any
  evaluate_loop-verdict a true [] = refl
  evaluate_loop-verdict a false [] = refl
  evaluate_loop-verdict a res (st ∷ sts) =
      ground (arith, evaluate_loop-verdict a res sts, evaluate_loop-verdict a true sts)

  -- `evaluate` is denied exactly if a matching statement denies, else allowed exactly if a matching
  -- statement allows, else it is no_match.
  pub evaluate-verdict :
      (d : Document) (a : Args)
      → evaluate std d a ≡ verdict (any (denies a) d.statements) (any (allows a) d.statements)
  unfolding evaluate
  evaluate-verdict d a = evaluate_loop-verdict a false d.statements

  -- The order of the statements does not matter.
  pub evaluate-Perm :
      (d e : Document) (a : Args)
      → Perm d.statements e.statements
      → evaluate std d a ≡ evaluate std e a
  evaluate-Perm d e a p = ground (
    arith,
    evaluate-verdict d a,
    evaluate-verdict e a,
    any-Perm (denies a) p,
    any-Perm (allows a) p,
  )

  -- Go iterates over the conditions of a statement in any order: the answer is the same.
  pub statement_matches-Perm :
      (st : Statement) (cs : Map (Map (List Bytes))) (a : Args)
      → Perm st.conditions cs
      → statement_matches std (record st { conditions = cs }) a ≡ statement_matches std st a
  unfolding statement_matches
  statement_matches-Perm st cs a p = ground (arith, all-Perm (eval_condition std a) p)

  resource_missed :
      (vars : Map Bytes) (w t : Bytes) (c : ℕ)
      → find_open (w ++ b'*' ∷ []) ≡ none
      → match_any_vars std ((w ++ b'*' ∷ []) ∷ []) (w ++ b'*' ∷ c ∷ t) vars ≡ false
  unfolding match_any_vars any
  resource_missed vars w t c h =
      rw (substitute_vars-none std vars (w ++ b'*' ∷ []) h, (match-star_missed w t c).0)

  statement_missed :
      (st : Statement) (a : Args)
      → is_nil st.resources ≡ false
      → match_any_vars std st.resources a.resource a.vars ≡ false
      → statement_matches std st a ≡ false
  unfolding statement_matches
  statement_missed st a n h = ground arith

  -- A statement whose one resource is a prefix and `*`, with no variable in it, does not match
  -- a resource that goes on behind the prefix with a `*` of its own and at least one byte more:
  -- a document of this statement alone decides nothing then, so a deny of everything below a
  -- prefix does not stop such a key.
  pub evaluate-star_missed :
      (st : Statement) (d : Document) (a : Args) (w t : Bytes) (c : ℕ)
      → st.resources ≡ (w ++ b'*' ∷ []) ∷ []
      → find_open (w ++ b'*' ∷ []) ≡ none
      → a.resource ≡ w ++ b'*' ∷ c ∷ t
      → d.statements ≡ st ∷ []
      → evaluate std d a ≡ no_match
  unfolding any
  evaluate-star_missed st d a w t c hr hv ha hd =
      let missed : match_any_vars std st.resources a.resource a.vars ≡ false =
        rw (hr, ha) (resource_missed a.vars w t c hv) in
      let skipped : statement_matches std st a ≡ false = statement_missed st a (rw hr) missed in
      ground (arith, evaluate-verdict d a, ap (any (denies a)) hd, ap (any (allows a)) hd)
