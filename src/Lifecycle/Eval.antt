-- ===== src/Lifecycle/Eval.antt =====
-- internal/lifecycle/eval.go: what the rules do to one version of an object.
pub mod Best
pub mod Kinds
pub mod Due
use opens.Prelude.{
  ℕ, ℤ, pos, negsuc, lt_int, le_int, Bool, true, false, not, ◌&&◌, ◌||◌, Option, none, some, List,
  [], ◌∷◌, Bytes, Map, codes, eq_bytes, has_prefix, lookup, any, all, is_nil, ltb, ◌==◌,
  if◌then◌else◌,
}
use mathlib.Core.Option
use opens.Lifecycle.Config.{
  Time, Tag, And, Filter, Expiration, NoncurrentVersionExpiration, Transition,
  NoncurrentVersionTransition, AbortIncompleteMultipartUpload, Rule, Config, Kind, none_kind,
  noncurrent_transition, transition, remove_delete_marker, expire_noncurrent_version,
  expire_current, Action, EvalInput,
}
use opens.Lifecycle.Time.{Dates, date_reached, is_due}

-- classRank; a class that is not in the map reads as 0
abbrev class_ranks : Map ℕ
class_ranks =
    ([], 0)
    ∷ (codes "STANDARD", 0)
    ∷ (codes "REDUCED_REDUNDANCY", 0)
    ∷ (codes "EXPRESS_ONEZONE", 0)
    ∷ (codes "OUTPOSTS", 0)
    ∷ (codes "STANDARD_IA", 1)
    ∷ (codes "INTELLIGENT_TIERING", 2)
    ∷ (codes "ONEZONE_IA", 3)
    ∷ (codes "GLACIER_IR", 4)
    ∷ (codes "GLACIER", 5)
    ∷ (codes "DEEP_ARCHIVE", 6)
    ∷ []

pub class_rank : Bytes → ℕ
class_rank sc = Option.get_or (lookup sc class_ranks) 0

-- The Go values of the kinds, which are their precedence.
unfoldable pub kind_rank : Kind → ℕ
kind_rank none_kind = 0
kind_rank noncurrent_transition = 1
kind_rank transition = 2
kind_rank remove_delete_marker = 3
kind_rank expire_noncurrent_version = 4
kind_rank expire_current = 5

abbrev pub no_action : Action
no_action = record { kind = none_kind; storage_class = []; rule_id = [] }

and_prefix : Option And → Bytes
and_prefix none = []
and_prefix (some a) = Option.get_or a.prefix []

-- Rule.filterPrefix()
unfoldable pub filter_prefix : Rule → Bytes
unfolding and_prefix
filter_prefix r = elim r.prefix [
  | some p ↦ p
  | none ↦ elim r.filter [
    | none ↦ []
    | some f ↦ elim f.prefix [ some p ↦ p | none ↦ and_prefix f.and ]
  ]
]

-- hasTag(tags, want)
pub has_tag : List Tag → Tag → Bool
has_tag tags want = any (λ t. eq_bytes t.key want.key && eq_bytes t.value want.value) tags

size_above : Option ℤ → ℤ → Bool
size_above none size = true
size_above (some gt) size = lt_int gt size

size_below : Option ℤ → ℤ → Bool
size_below none size = true
size_below (some lt) size = lt_int size lt

-- The tests of Rule.matches behind the prefix; And replaces the tag and the sizes of its filter.
filter_matches : Filter → EvalInput → Bool
unfolding size_above size_below has_tag
filter_matches f o = elim f.and [
  | some a ↦
      all (has_tag o.tags) a.tags
      && (size_above a.object_size_greater_than o.size && size_below a.object_size_less_than o.size)
  | none ↦
      (elim f.tag [ none ↦ true | some t ↦ has_tag o.tags t ])
      && (size_above f.object_size_greater_than o.size && size_below f.object_size_less_than o.size)
]

-- Rule.matches(o)
unfoldable pub rule_matches : Rule → EvalInput → Bool
unfolding filter_matches
rule_matches r o =
    has_prefix o.key (filter_prefix r)
    && elim r.filter [ none ↦ true | some f ↦ filter_matches f o ]

-- The closure `consider` of Eval, on the best action so far.
unfoldable pub consider : Action → Action → Action
consider best a =
    if kind_rank a.kind == 0
    then best
    else if ltb (kind_rank best.kind) (kind_rank a.kind)
        || (kind_rank a.kind == kind_rank best.kind
            && ltb (class_rank best.storage_class) (class_rank a.storage_class))
    then a
    else best

-- The last test of both transition loops.
pub colder : Bytes → Bytes → Bytes → Bool
colder target current best =
    ltb (class_rank current) (class_rank target) && ltb (class_rank best) (class_rank target)

module _ (dates : Dates) (now : Time) where
  -- One round of the loop over Transitions, on the best so far.
  pub transition_step : Bytes → EvalInput → Action → Transition → Action
  transition_step id o best t =
      let due =
        if is_nil t.date then is_due now o.mod_time t.days else date_reached dates t.date now in
      if due && colder t.storage_class o.storage_class best.storage_class
      then record { kind = transition; storage_class = t.storage_class; rule_id = id }
      else best

  pub transition_loop : Bytes → EvalInput → Action → List Transition → Action
  transition_loop id o best [] = best
  transition_loop id o best (t ∷ ts) = transition_loop id o (transition_step id o best t) ts

  -- The test of Rule.evalCurrent on its expiration.
  unfoldable pub expiration_due : Expiration → EvalInput → Bool
  expiration_due e o =
      (lt_int (pos 0) e.days && is_due now o.mod_time e.days)
      || (not (is_nil e.date) && date_reached dates e.date now)

  -- Rule.evalCurrent(o, now)
  unfoldable pub eval_current : Rule → EvalInput → Action
  eval_current r o =
      if elim r.expiration [ none ↦ false | some e ↦ expiration_due e o ]
      then record { kind = expire_current; storage_class = []; rule_id = r.id }
      else transition_loop r.id o no_action r.transitions

  -- The switch of Rule.evalDeleteMarker.
  pub marker_due : Expiration → EvalInput → Bool
  marker_due e o = elim e.expired_object_delete_marker [
    | some b ↦ b
    | none ↦
        if lt_int (pos 0) e.days
        then is_due now o.mod_time e.days
        else not (is_nil e.date) && date_reached dates e.date now
  ]

  pub marker_action : Rule → Expiration → EvalInput → Action
  marker_action r e o =
      if o.has_older_versions
      then no_action
      else if marker_due e o
      then record { kind = remove_delete_marker; storage_class = []; rule_id = r.id }
      else no_action

  -- Rule.evalDeleteMarker(o, now)
  pub eval_delete_marker : Rule → EvalInput → Action
  eval_delete_marker r o = elim r.expiration [ none ↦ no_action | some e ↦ marker_action r e o ]

  -- One round of the loop over NoncurrentVersionTransitions, on the best so far.
  pub noncurrent_step : Bytes → EvalInput → Action → NoncurrentVersionTransition → Action
  noncurrent_step id o best t =
      let early =
        lt_int o.newer_noncurrent_count t.newer_noncurrent_versions
        || not (is_due now o.noncurrent_since t.noncurrent_days) in
      if not early && colder t.storage_class o.storage_class best.storage_class
      then record { kind = noncurrent_transition; storage_class = t.storage_class; rule_id = id }
      else best

  pub noncurrent_loop : Bytes → EvalInput → Action → List NoncurrentVersionTransition → Action
  noncurrent_loop id o best [] = best
  noncurrent_loop id o best (t ∷ ts) = noncurrent_loop id o (noncurrent_step id o best t) ts

  pub noncurrent_due : NoncurrentVersionExpiration → EvalInput → Bool
  noncurrent_due n o =
      le_int n.newer_noncurrent_versions o.newer_noncurrent_count
      && is_due now o.noncurrent_since n.noncurrent_days

  -- Rule.evalNoncurrent(o, now)
  pub eval_noncurrent : Rule → EvalInput → Action
  eval_noncurrent r o =
      if elim r.noncurrent_version_expiration [ none ↦ false | some n ↦ noncurrent_due n o ]
      then record { kind = expire_noncurrent_version; storage_class = []; rule_id = r.id }
      else if o.delete_marker
      then no_action
      else noncurrent_loop r.id o no_action r.noncurrent_version_transitions

  -- What the body of the loop of Eval considers; `continue` considers nothing.
  unfoldable pub rule_action : EvalInput → Rule → Action
  rule_action o r =
      if not (eq_bytes r.status (codes "Enabled")) || not (rule_matches r o)
      then no_action
      else if o.is_latest && o.delete_marker
      then eval_delete_marker r o
      else if o.is_latest
      then eval_current r o
      else eval_noncurrent r o

  pub eval_loop : EvalInput → Action → List Rule → Action
  eval_loop o best [] = best
  eval_loop o best (r ∷ rs) = eval_loop o (consider best (rule_action o r)) rs

  -- Config.Eval(o, now)
  unfoldable pub eval : Config → EvalInput → Action
  unfolding eval_loop
  eval c o = eval_loop o no_action c.rules

-- Config.AbortAfter(initiated, key, now)
pub abort_after : Config → Time → Bytes → Time → Bool
abort_after c initiated key now =
    any
      (λ r. eq_bytes r.status (codes "Enabled") && (elim r.abort_incomplete_multipart_upload [
        | none ↦ false
        | some a ↦ has_prefix key (filter_prefix r) && is_due now initiated a.days_after_initiation
      ]))
      c.rules
