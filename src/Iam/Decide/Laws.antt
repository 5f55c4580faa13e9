-- ===== src/Iam/Decide/Laws.antt =====
-- The order of authorisation: an explicit deny anywhere, session policies as filters, administrative
-- actions by identity policies alone, then bucket and identity policies, then ACLs.
use opens.Prelude.{
  ◌≡◌, refl, Bool, true, false, not, ◌&&◌, ◌||◌, Option, none, some, List, [], ◌∷◌, any, all,
  if◌then◌else◌, arith,
}
use opens.Policy.Std.{Std}
use opens.Policy.Document.{Args, Decision, no_match, allowed}
use opens.Iam.Types.{
  RawMessage, Identity, Request, Grant, refused, no_grant, by_policy, by_acl, is_administrative,
}
use opens.Iam.Acl.{acl_allows}
use opens.Iam.Decide.{
  Config, is_denied, grants, args_of, bucket_decision, policy_decision, identity_loop,
  session_allows, root_escape, decide, authorize,
}

-- The grant of a caller that is not root, from the answers of the parts.
abbrev pub grant_by : (deny filtered administrative bucket identity acl : Bool) → Grant
grant_by deny filtered administrative bucket identity acl =
    if deny || filtered
    then refused
    else if administrative
    then (if identity then by_policy else no_grant)
    else if bucket || identity
    then by_policy
    else if acl
    then by_acl
    else no_grant

module _ (std : Std) (cfg : Config) where
  -- A stored policy parses, and denies or allows the request.
  abbrev pub says_deny : Args → RawMessage → Bool
  says_deny a raw = elim (policy_decision std cfg a raw) [ none ↦ false | some d ↦ is_denied d ]

  abbrev pub says_allow : Args → RawMessage → Bool
  says_allow a raw = elim (policy_decision std cfg a raw) [ none ↦ false | some d ↦ grants d ]

  abbrev after_loop : Bool → Bool → Decision → Option Decision
  after_loop true _ ip = none
  after_loop false true ip = some allowed
  after_loop false false ip = some ip

  identity_loop-eq :
      (a : Args) (ip : Decision) (raws : List RawMessage)
      → identity_loop std cfg a ip raws
        ≡ after_loop (any (says_deny a) raws) (any (says_allow a) raws) ip
  unfolding identity_loop any policy_decision
  identity_loop-eq a ip [] = refl
  identity_loop-eq a ip (raw ∷ raws) =
      ground (arith, identity_loop-eq a ip raws, identity_loop-eq a allowed raws)

  -- All session policies of an identity allow.
  abbrev pub sessions_allow : Args → Identity → Bool
  sessions_allow a id = all (session_allows std cfg a) (id.session_policy ∷ id.parent_policies)

  -- For a caller that is not root: a deny of the bucket policy or of an identity policy refuses, and
  -- so does a session policy that does not allow; an administrative action is granted by identity
  -- policies alone; any other by the bucket policy or an identity policy, and else by an ACL.
  pub decide-identity :
      (r : Request) (id : Identity)
      → r.identity ≡ some id
      → id.is_root ≡ false
      → decide std cfg r
        ≡ grant_by
            (is_denied (bucket_decision std cfg r) || any (says_deny (args_of cfg r)) id.policies)
            (not (sessions_allow (args_of cfg r) id))
            (is_administrative r.action)
            (grants (bucket_decision std cfg r))
            (any (says_allow (args_of cfg r)) id.policies)
            (acl_allows cfg.canonical_id r)
  unfolding decide root_escape
  decide-identity r id i n = ground (arith, identity_loop-eq (args_of cfg r) no_match id.policies)

  pub decide-root :
      (r : Request) (id : Identity)
      → r.identity ≡ some id
      → id.is_root ≡ true
      → decide std cfg r ≡ (
          if is_denied (bucket_decision std cfg r) && not (root_escape std cfg r)
          then refused
          else by_policy)
  unfolding decide
  decide-root r id i n = ground arith

  -- An anonymous request is decided by the bucket policy and the ACLs alone.
  pub decide-anonymous :
      (r : Request)
      → r.identity ≡ none
      → decide std cfg r
        ≡ grant_by
            (is_denied (bucket_decision std cfg r))
            false
            false
            (grants (bucket_decision std cfg r))
            false
            (acl_allows cfg.canonical_id r)
  unfolding decide root_escape
  decide-anonymous r i = ground arith

  -- An administrative action of a caller that is not root is allowed only if an identity policy
  -- allows it and none denies it, and then by policy: no bucket policy and no ACL can grant it.
  pub decide-administrative :
      (r : Request) (id : Identity)
      → r.identity ≡ some id
      → id.is_root ≡ false
      → is_administrative r.action ≡ true
      → authorize std cfg r ≡ true
      → (any (says_allow (args_of cfg r)) id.policies ≡ true)
        × (any (says_deny (args_of cfg r)) id.policies ≡ false)
        × (decide std cfg r ≡ by_policy)
  unfolding authorize
  decide-administrative r id i n adm ok = ground (arith, decide-identity r id i n)
