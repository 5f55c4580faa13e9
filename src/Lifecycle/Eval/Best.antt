-- ===== src/Lifecycle/Eval/Best.antt =====
-- The best action wins: no rule that applies offers a better one, and what is done is what a rule
-- offers.
use opens.Prelude.{◌≡◌, refl, ◌⊎◌, ◌≢◌, ◌∙◌, inl, inr, ◌≤◌, ◌<◌, List, [], ◌∷◌, In, arith}
use opens.Lifecycle.Config.{Time, Rule, Config, Action, EvalInput}
use opens.Lifecycle.Time.{Dates}
use opens.Lifecycle.Eval.{class_rank, kind_rank, no_action, consider, rule_action, eval_loop, eval}

-- The order of actions: by kind, and then by the storage class.
abbrev pub NotBetter : Action → Action → Type 0
NotBetter a b =
    (kind_rank a.kind < kind_rank b.kind)
    ⊎ ((kind_rank a.kind ≡ kind_rank b.kind)
        × (class_rank a.storage_class ≤ class_rank b.storage_class))

NotBetter-trans : (a b c : Action) → NotBetter a b → NotBetter b c → NotBetter a c
NotBetter-trans a b c p q = ground arith

consider-left : (best a : Action) → NotBetter best (consider best a)
unfolding consider
consider-left best a = ground arith

consider-right : (best a : Action) → kind_rank a.kind ≢ 0 → NotBetter a (consider best a)
unfolding consider
consider-right best a h = ground arith

consider-cases : (best a : Action) → (consider best a ≡ best) ⊎ (consider best a ≡ a)
unfolding consider
consider-cases best a = ground arith

module _ (dates : Dates) (now : Time) (o : EvalInput) where
  eval_loop-best : (best : Action) (rs : List Rule) → NotBetter best (eval_loop dates now o best rs)
  unfolding eval_loop
  eval_loop-best best [] = inr (refl, omega arith)
  eval_loop-best best (r ∷ rs) =
      let next : Action = consider best (rule_action dates now o r) in
      NotBetter-trans best next (eval_loop dates now o next rs)
        (consider-left best (rule_action dates now o r)) (eval_loop-best next rs)

  eval_loop-rule :
      (best : Action) (rs : List Rule) (r : Rule)
      → In r rs
      → kind_rank (rule_action dates now o r).kind ≢ 0
      → NotBetter (rule_action dates now o r) (eval_loop dates now o best rs)
  unfolding eval_loop
  eval_loop-rule best [] r m h = absurd m
  eval_loop-rule best (q ∷ rs) r (inl e) h =
      let a : Action = rule_action dates now o r in
      let next : Action = consider best a in
      rw e (
        NotBetter-trans a next (eval_loop dates now o next rs) (consider-right best a h)
          (eval_loop-best next rs))
  eval_loop-rule best (q ∷ rs) r (inr m) h =
      eval_loop-rule (consider best (rule_action dates now o q)) rs r m h

  -- No rule of the configuration that offers an action offers a better one than the one that is
  -- chosen, by kind and then by how cold the storage class is.
  pub eval-best :
      (c : Config) (r : Rule)
      → In r c.rules
      → kind_rank (rule_action dates now o r).kind ≢ 0
      → NotBetter (rule_action dates now o r) (eval dates now c o)
  unfolding eval
  eval-best c r m h = eval_loop-rule no_action c.rules r m h

  eval_loop-offered :
      (best : Action) (rs : List Rule)
      → (eval_loop dates now o best rs ≡ best)
        ⊎ ((r : Rule) × In r rs × (eval_loop dates now o best rs ≡ rule_action dates now o r))
  unfolding eval_loop
  eval_loop-offered best [] = inl refl
  eval_loop-offered best (r ∷ rs) =
      step (consider best (rule_action dates now o r)) refl
        (eval_loop-offered (consider best (rule_action dates now o r)) rs)
        (consider-cases best (rule_action dates now o r))
    where
      step :
          (next : Action)
          → consider best (rule_action dates now o r) ≡ next
          → (eval_loop dates now o next rs ≡ next)
            ⊎ ((q : Rule) × In q rs × (eval_loop dates now o next rs ≡ rule_action dates now o q))
          → (next ≡ best) ⊎ (next ≡ rule_action dates now o r)
          → (eval_loop dates now o next rs ≡ best)
            ⊎ ((q : Rule) × In q (r ∷ rs)
                × (eval_loop dates now o next rs ≡ rule_action dates now o q))
      step next _ (inl e) (inl b) = inl (e ∙ b)
      step next _ (inl e) (inr b) = inr (r, inl refl, e ∙ b)
      step next _ (inr (q, m, e)) _ = inr (q, inr m, e)

  -- The chosen action is none, or it is what one of the rules offers.
  pub eval-offered :
      (c : Config)
      → (eval dates now c o ≡ no_action)
        ⊎ ((r : Rule) × In r c.rules × (eval dates now c o ≡ rule_action dates now o r))
  unfolding eval
  eval-offered c = eval_loop-offered no_action c.rules
