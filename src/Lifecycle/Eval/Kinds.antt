-- ===== src/Lifecycle/Eval/Kinds.antt =====
-- What the rules may do to which versions: each kind of action fits the state of the version.
use opens.Prelude.{
  ◌≡◌, inl, inr, ◌<◌, true, false, ◌&&◌, List, [], ◌∷◌, Bytes, arith, if_elim, option_elim,
}
use opens.Lifecycle.Config.{
  Time, Rule, Config, Expiration, Transition, NoncurrentVersionTransition, none_kind,
  noncurrent_transition, transition, remove_delete_marker, expire_noncurrent_version,
  expire_current, Action, EvalInput,
}
use opens.Lifecycle.Time.{Dates}
use opens.Lifecycle.Eval.{
  class_rank, colder, no_action, transition_step, noncurrent_step, transition_loop, noncurrent_loop,
  marker_action, eval_current, eval_delete_marker, eval_noncurrent, marker_due, rule_action, eval,
}
use opens.Lifecycle.Eval.Best.{eval-offered}

-- The versions that a kind of action is meant for.
pub Fits : EvalInput → Action → Type 0
Fits o a = elim a.kind [
  | none_kind ↦ Unit
  | noncurrent_transition ↦
      (o.is_latest ≡ false)
      × (o.delete_marker ≡ false)
      × (class_rank o.storage_class < class_rank a.storage_class)
  | transition ↦
      (o.is_latest ≡ true)
      × (o.delete_marker ≡ false)
      × (class_rank o.storage_class < class_rank a.storage_class)
  | remove_delete_marker ↦
      (o.is_latest ≡ true) × (o.delete_marker ≡ true) × (o.has_older_versions ≡ false)
  | expire_noncurrent_version ↦ o.is_latest ≡ false
  | expire_current ↦ (o.is_latest ≡ true) × (o.delete_marker ≡ false)
]

colder-lt :
    (target current best : Bytes)
    → colder target current best ≡ true
    → class_rank current < class_rank target
unfolding colder
colder-lt target current best h = ground arith

module _ (dates : Dates) (now : Time) (o : EvalInput) where
  -- The actions that the rules build.
  Fits-transition :
      (id target best : Bytes)
      → o.is_latest ≡ true
      → o.delete_marker ≡ false
      → colder target o.storage_class best ≡ true
      → Fits o (record { kind = transition; storage_class = target; rule_id = id })
  unfolding Fits
  Fits-transition id target best l d e = (l, d, colder-lt target o.storage_class best e)

  Fits-noncurrent_transition :
      (id target best : Bytes)
      → o.is_latest ≡ false
      → o.delete_marker ≡ false
      → colder target o.storage_class best ≡ true
      → Fits o (record { kind = noncurrent_transition; storage_class = target; rule_id = id })
  unfolding Fits
  Fits-noncurrent_transition id target best l d e = (l, d, colder-lt target o.storage_class best e)

  Fits-remove_delete_marker :
      (id : Bytes)
      → o.is_latest ≡ true
      → o.delete_marker ≡ true
      → o.has_older_versions ≡ false
      → Fits o (record { kind = remove_delete_marker; storage_class = []; rule_id = id })
  unfolding Fits
  Fits-remove_delete_marker id l d h = (l, d, h)

  Fits-expire_noncurrent_version :
      (id : Bytes)
      → o.is_latest ≡ false
      → Fits o (record { kind = expire_noncurrent_version; storage_class = []; rule_id = id })
  unfolding Fits
  Fits-expire_noncurrent_version id l = l

  Fits-expire_current :
      (id : Bytes)
      → o.is_latest ≡ true
      → o.delete_marker ≡ false
      → Fits o (record { kind = expire_current; storage_class = []; rule_id = id })
  unfolding Fits
  Fits-expire_current id l d = (l, d)

  transition_step-Fits :
      (id : Bytes) (best : Action) (t : Transition)
      → o.is_latest ≡ true
      → o.delete_marker ≡ false
      → Fits o best
      → Fits o (transition_step dates now id o best t)
  unfolding transition_step
  transition_step-Fits id best t l d h =
      if_elim (Fits o) _ _ best
        (λ e. Fits-transition id t.storage_class best.storage_class l d (ground arith)) (λ _. h)

  transition_loop-Fits :
      (id : Bytes) (best : Action) (ts : List Transition)
      → o.is_latest ≡ true
      → o.delete_marker ≡ false
      → Fits o best
      → Fits o (transition_loop dates now id o best ts)
  unfolding transition_loop
  transition_loop-Fits id best [] l d h = h
  transition_loop-Fits id best (t ∷ ts) l d h =
      transition_loop-Fits id (transition_step dates now id o best t) ts l d
        (transition_step-Fits id best t l d h)

  noncurrent_step-Fits :
      (id : Bytes) (best : Action) (t : NoncurrentVersionTransition)
      → o.is_latest ≡ false
      → o.delete_marker ≡ false
      → Fits o best
      → Fits o (noncurrent_step dates now id o best t)
  unfolding noncurrent_step
  noncurrent_step-Fits id best t l d h =
      if_elim (Fits o) _ _ best
        (λ e. Fits-noncurrent_transition id t.storage_class best.storage_class l d (ground arith))
        (λ _. h)

  noncurrent_loop-Fits :
      (id : Bytes) (best : Action) (ts : List NoncurrentVersionTransition)
      → o.is_latest ≡ false
      → o.delete_marker ≡ false
      → Fits o best
      → Fits o (noncurrent_loop dates now id o best ts)
  unfolding noncurrent_loop
  noncurrent_loop-Fits id best [] l d h = h
  noncurrent_loop-Fits id best (t ∷ ts) l d h =
      noncurrent_loop-Fits id (noncurrent_step dates now id o best t) ts l d
        (noncurrent_step-Fits id best t l d h)

  Fits-no_action : Fits o no_action
  unfolding Fits
  Fits-no_action = tt

  eval_current-Fits :
      (r : Rule)
      → o.is_latest ≡ true
      → o.delete_marker ≡ false
      → Fits o (eval_current dates now r o)
  unfolding eval_current
  eval_current-Fits r l d =
      if_elim (Fits o) _ _ _ (λ _. Fits-expire_current r.id l d)
        (λ _. transition_loop-Fits r.id no_action r.transitions l d Fits-no_action)

  eval_noncurrent-Fits : (r : Rule) → o.is_latest ≡ false → Fits o (eval_noncurrent dates now r o)
  unfolding eval_noncurrent
  eval_noncurrent-Fits r l =
      if_elim (Fits o) _ _ _ (λ _. Fits-expire_noncurrent_version r.id l)
        (λ _.
          if_elim (Fits o) o.delete_marker no_action _ (λ _. Fits-no_action)
            (λ d.
              noncurrent_loop-Fits r.id no_action r.noncurrent_version_transitions l d
                Fits-no_action))

  marker_action-Fits :
      (r : Rule) (e : Expiration)
      → o.is_latest ≡ true
      → o.delete_marker ≡ true
      → Fits o (marker_action dates now r e o)
  unfolding marker_action
  marker_action-Fits r e l d =
      if_elim (Fits o) o.has_older_versions no_action _ (λ _. Fits-no_action)
        (λ older.
          if_elim (Fits o) (marker_due dates now e o) _ no_action
            (λ _. Fits-remove_delete_marker r.id l d older) (λ _. Fits-no_action))

  eval_delete_marker-Fits :
      (r : Rule)
      → o.is_latest ≡ true
      → o.delete_marker ≡ true
      → Fits o (eval_delete_marker dates now r o)
  unfolding eval_delete_marker
  eval_delete_marker-Fits r l d =
      option_elim (Fits o) r.expiration no_action _ (λ _. Fits-no_action)
        (λ e _. marker_action-Fits r e l d)

  rule_action-Fits : (r : Rule) → Fits o (rule_action dates now o r)
  unfolding rule_action
  rule_action-Fits r =
      if_elim (Fits o) _ no_action _ (λ _. Fits-no_action)
        (λ _.
          if_elim (Fits o) (o.is_latest && o.delete_marker) _ _
            (λ m. eval_delete_marker-Fits r (ground arith) (ground arith))
            (λ m.
              if_elim (Fits o) o.is_latest _ _ (λ l. eval_current-Fits r l (ground arith))
                (eval_noncurrent-Fits r)))

  -- Whatever the rules, an action fits the version: only the current version is expired or moved as
  -- such, only noncurrent ones are deleted as noncurrent, a delete marker is removed only as the last
  -- version of its key, and a transition goes to a colder class.
  pub eval-Fits : (c : Config) → Fits o (eval dates now c o)
  eval-Fits c = elim (eval-offered dates now o c) [
    | inl e ↦ rw e Fits-no_action
    | inr (r, _, e) ↦ rw e (rule_action-Fits r)
  ]
