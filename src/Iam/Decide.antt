-- ===== src/Iam/Decide.antt =====
-- internal/iam/authz.go, `Decide` and `Authorize`: bucket policy, identity and session policies, ACLs.
pub mod Laws
pub mod Session
use opens.Prelude.{
  Bool, true, false, not, ◌&&◌, ◌||◌, Option, none, some, List, [], ◌∷◌, ◌++◌, Bytes, Map, codes,
  eq_bytes, any, all, is_nil, lookup, if◌then◌else◌,
}
use opens.Policy.Std.{Std}
use opens.Policy.Document.{Document, Args, Decision, no_match, allowed, denied}
use opens.Policy.Evaluate.{evaluate}
use opens.Policy.Bucket.{is_public, resource_arn}
use opens.Iam.Types.{
  RawMessage, Identity, Request, Grant, refused, no_grant, by_policy, by_acl, is_allowed, name_of,
  arn_of, account_arn, principal_type, is_administrative,
}
use opens.Iam.Acl.{acl_allows}

abbrev pub is_denied : Decision → Bool
is_denied denied = true
is_denied _ = false

abbrev pub grants : Decision → Bool
grants allowed = true
grants _ = false

-- The store: its account, the canonical ID of a user name (a hash), and `ParsedPolicy`, which is
-- policy.Parse behind a cache; `none` is an error.
pub record Config : Type 0 where
  pub account : Bytes
  pub canonical_id : Bytes → Bytes
  pub parsed_policy : RawMessage → Option Document

-- The variables of the request, in the order in which they are set.
vars_of : Config → Option Identity → Map Bytes
vars_of cfg none = (codes "aws:principaltype", principal_type none) ∷ []
vars_of cfg (some id) =
    (codes "aws:username", name_of id)
    ∷ (codes "aws:userid", cfg.canonical_id (name_of id))
    ∷ (codes "aws:principaltype", principal_type (some id))
    ∷ []

-- The loop that makes each variable a condition key, unless the request has the key.
with_vars : Map Bytes → Map (List Bytes) → Map (List Bytes)
with_vars [] conditions = conditions
with_vars ((k, v) ∷ vars) conditions =
    with_vars vars
      (elim (lookup k conditions) [ some _ ↦ conditions | none ↦ conditions ++ (k, v ∷ []) ∷ [] ])

resource_of : Config → Request → Bytes
resource_of cfg r =
    if not (is_nil r.resource)
    then r.resource
    else if is_administrative r.action
    then account_arn cfg.account
    else resource_arn r.bucket r.key

-- The arguments that every policy is evaluated against.
unfoldable pub args_of : Config → Request → Args
unfolding vars_of with_vars resource_of
args_of cfg r = record {
  action = r.action;
  resource = resource_of cfg r;
  principal_arn = elim r.identity [ none ↦ [] | some id ↦ arn_of id ];
  canonical_id = elim r.identity [ none ↦ [] | some id ↦ cfg.canonical_id (name_of id) ];
  anonymous = elim r.identity [ none ↦ true | some _ ↦ false ];
  conditions = with_vars (vars_of cfg r.identity) r.conditions;
  vars = vars_of cfg r.identity;
}

module _ (std : Std) (cfg : Config) where
  -- RestrictPublicBuckets: the anonymous caller does not see a public policy.
  skips_policy : Request → Document → Bool
  skips_policy r doc = elim r.identity [
    | some _ ↦ false
    | none ↦ elim r.public_access_block [
      | none ↦ false
      | some b ↦ b.restrict_public_buckets && is_public std doc
    ]
  ]

  -- The decision of the bucket policy; one that does not parse decides nothing.
  unfoldable pub bucket_decision : Request → Decision
  unfolding skips_policy
  bucket_decision r =
      if is_nil r.bucket_policy then no_match else elim (cfg.parsed_policy r.bucket_policy) [
        | none ↦ no_match
        | some doc ↦ if skips_policy r doc then no_match else evaluate std doc (args_of cfg r)
      ]

  -- What one stored policy decides; `none` if it does not parse.
  unfoldable pub policy_decision : Args → RawMessage → Option Decision
  policy_decision a raw = elim (cfg.parsed_policy raw) [
    | none ↦ none
    | some doc ↦ some (evaluate std doc a)
  ]

  -- The loop over the identity's policies, from the decision so far; `none` is the return of Refused.
  unfoldable pub identity_loop : Args → Decision → List RawMessage → Option Decision
  unfolding policy_decision
  identity_loop a ip [] = some ip
  identity_loop a ip (raw ∷ raws) =
      let keep = identity_loop a ip raws in
      let allow_it = identity_loop a allowed raws in
      elim (policy_decision a raw) [
        | none ↦ keep
        | some d ↦ elim d [ denied ↦ none | allowed ↦ allow_it | no_match ↦ keep ]
      ]

  -- One round of the loop over session policies: an empty one is no filter, any other must parse
  -- and allow.
  unfoldable pub session_allows : Args → RawMessage → Bool
  unfolding policy_decision
  session_allows a raw =
      is_nil raw || elim (policy_decision a raw) [ none ↦ false | some d ↦ grants d ]

  -- The return at the end: policies, then ACLs.
  last_step : Request → Decision → Decision → Grant
  last_step r bp ip =
      if grants bp || grants ip
      then by_policy
      else if acl_allows cfg.canonical_id r
      then by_acl
      else no_grant

  -- Identity policies, session policies and administrative actions of a caller that is not root.
  identity_step : Request → Identity → Decision → Grant
  unfolding last_step
  identity_step r id bp = elim (identity_loop (args_of cfg r) no_match id.policies) [
    | none ↦ refused
    | some ip ↦
        if not (all (session_allows (args_of cfg r)) (id.session_policy ∷ id.parent_policies))
        then refused
        else if is_administrative r.action
        then (if grants ip then by_policy else no_grant)
        else last_step r bp ip
  ]

  -- Root may always manage the bucket policy, unless the owner confirmed a self-lock.
  pub root_escape : Request → Bool
  root_escape r = elim r.identity [
    | none ↦ false
    | some id ↦
        id.is_root
        && (not r.self_lock_confirmed
            && (eq_bytes r.action (codes "s3:PutBucketPolicy")
                || (eq_bytes r.action (codes "s3:DeleteBucketPolicy")
                    || eq_bytes r.action (codes "s3:GetBucketPolicy"))))
  ]

  -- Decide(r)
  unfoldable pub decide : Request → Grant
  unfolding identity_step last_step
  decide r =
      let bp = bucket_decision r in
      if is_denied bp then (if root_escape r then by_policy else refused) else elim r.identity [
        | none ↦ last_step r bp no_match
        | some id ↦ if id.is_root then by_policy else identity_step r id bp
      ]

  -- Authorize(r)
  unfoldable pub authorize : Request → Bool
  unfolding is_allowed
  authorize r = is_allowed (decide r)
