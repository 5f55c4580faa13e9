-- ===== src/Iam/Decide/Session.antt =====
-- Credentials that carry session policies, compared with the same credentials without them.
use opens.Prelude.{◌≡◌, refl, ◌⊎◌, inl, inr, true, some, [], all, arith, Bool-cases}
use opens.Policy.Std.{Std}
use opens.Policy.Document.{Args}
use opens.Iam.Types.{Identity, Request, refused, name_of, arn_of, principal_type}
use opens.Iam.Acl.{acl_allows, owned_by, grant_gives, ignore_public}
use opens.Iam.Decide.{Config, args_of, bucket_decision, session_allows, root_escape, decide}
use opens.Iam.Decide.Laws.{sessions_allow, decide-identity, decide-root}

-- The same identity without the session policies of its credentials.
abbrev pub unrestricted : Identity → Identity
unrestricted id = record id { session_policy = []; parent_policies = [] }

abbrev pub request_by : Request → Identity → Request
request_by r id = record r { identity = some id }

module _ (std : Std) (cfg : Config) where
  args_of-unrestricted :
      (r : Request) (id : Identity)
      → args_of cfg (request_by r (unrestricted id)) ≡ args_of cfg (request_by r id)
  unfolding args_of name_of arn_of principal_type
  args_of-unrestricted r id = refl

  bucket_decision-unrestricted :
      (r : Request) (id : Identity)
      → bucket_decision std cfg (request_by r (unrestricted id))
        ≡ bucket_decision std cfg (request_by r id)
  unfolding bucket_decision args_of name_of arn_of principal_type
  bucket_decision-unrestricted r id = refl

  acl_allows-unrestricted :
      (r : Request) (id : Identity)
      → acl_allows cfg.canonical_id (request_by r (unrestricted id))
        ≡ acl_allows cfg.canonical_id (request_by r id)
  unfolding acl_allows owned_by grant_gives ignore_public name_of
  acl_allows-unrestricted r id = refl

  sessions_allow-unrestricted :
      (a : Args) (id : Identity) → sessions_allow std cfg a (unrestricted id) ≡ true
  unfolding all session_allows
  sessions_allow-unrestricted a id = refl

  root_escape-unrestricted :
      (r : Request) (id : Identity)
      → root_escape std cfg (request_by r (unrestricted id)) ≡ root_escape std cfg (request_by r id)
  unfolding root_escape
  root_escape-unrestricted r id = refl

  -- A session policy only narrows: a request is refused, or it is decided as without it.
  pub decide-unrestricted :
      (r : Request) (id : Identity)
      → (decide std cfg (request_by r id) ≡ refused)
        ⊎ (decide std cfg (request_by r id) ≡ decide std cfg (request_by r (unrestricted id)))
  decide-unrestricted r id =
      let plain : Identity = unrestricted id in
      elim (Bool-cases id.is_root) [
        | inl root ↦ inr (
            rw (
              decide-root std cfg (request_by r id) id refl root,
              decide-root std cfg (request_by r plain) plain refl root,
              bucket_decision-unrestricted r id,
              root_escape-unrestricted r id,
            ))
        | inr other ↦
            let here = decide-identity std cfg (request_by r id) id refl other in
            let there = decide-identity std cfg (request_by r plain) plain refl other in
            elim (Bool-cases (sessions_allow std cfg (args_of cfg (request_by r id)) id)) [
              | inl pass ↦ inr (
                  rw (
                    here,
                    there,
                    bucket_decision-unrestricted r id,
                    args_of-unrestricted r id,
                    pass,
                    sessions_allow-unrestricted (args_of cfg (request_by r id)) id,
                    acl_allows-unrestricted r id,
                  ))
              | inr stop ↦ inl (rw (here, stop) (ground arith))
            ]
      ]
