-- ===== src/Tests/Iam.antt =====
-- Runs and witnesses for internal/iam/authz.go.
use opens.Prelude.{
  ◌≡◌, ◌⊎◌, refl, true, false, not, ◌||◌, Option, none, some, [], ◌∷◌, codes, any, all, eq_bytes,
  has_prefix, if◌then◌else◌,
}
use opens.Policy.Glob.{match}
use opens.Policy.Vars.{find_open, substitute_vars}
use opens.Policy.Document.{allow, deny}
use opens.Policy.Evaluate.{evaluate, statement_matches, match_any, match_any_vars}
use opens.Iam.Types.{
  RawMessage, Identity, Request, refused, by_policy, is_administrative, account_arn,
}
use opens.Iam.Acl.{acl_allows}
use opens.Iam.Decide.{
  Config, is_denied, grants, policy_decision, identity_loop, session_allows, args_of,
  bucket_decision, decide, authorize,
}
use opens.Iam.Decide.Laws.{
  grant_by, says_deny, says_allow, sessions_allow, decide-identity, decide-administrative,
}
use opens.Iam.Decide.Session.{unrestricted, request_by, decide-unrestricted}
use opens.Tests.Ascii.{ascii, lower}
use opens.Tests.Policy.{statement_on, document_of}

-- The policies are stored under one-byte names: everything in bucket b, and nothing below k.
abbrev all_b : RawMessage
all_b = codes "A"

abbrev not_k : RawMessage
not_k = codes "D"

abbrev cfg : Config
cfg = record {
  account = codes "1";
  canonical_id = λ name. name;
  parsed_policy = λ raw.
      if eq_bytes raw (codes "A")
      then some (document_of (statement_on allow (codes "arn:aws:s3:::b/*") ∷ []))
      else if eq_bytes raw (codes "D")
      then some (document_of (statement_on deny (codes "arn:aws:s3:::b/k/*") ∷ []))
      else if eq_bytes raw (codes "I")
      then some (
          document_of
            (record (statement_on allow (codes "*")) { actions = codes "iam:*" ∷ [] } ∷ []))
      else none;
}

abbrev ann : Identity
ann = record {
  user = record { name = codes "ann"; path = []; enabled = true; policies = []; groups = [] };
  key = none;
  is_root = false;
  policies = all_b ∷ codes "I" ∷ [];
  session_policy = not_k;
  parent_policies = [];
  account_id = codes "1";
}

abbrev root : Identity
root = record ann { is_root = true }

abbrev get_by : Option Identity → Request
get_by id = record {
  identity = id;
  action = codes "s3:GetObject";
  bucket = codes "b";
  key = codes "k/x";
  resource = [];
  bucket_owner = codes "bob";
  bucket_policy = not_k;
  bucket_acl = none;
  public_access_block = some (record {
    block_public_acls = true;
    ignore_public_acls = true;
    block_public_policy = true;
    restrict_public_buckets = true;
  });
  ownership = [];
  object_owner = codes "bob";
  object_acl = some (record {
    owner = codes "bob";
    grants =
        record {
          grantee = codes "http://acs.amazonaws.com/groups/global/AllUsers";
          grantee_type = codes "Group";
          permission = codes "READ";
        }
        ∷ [];
  });
  self_lock_confirmed = false;
  conditions = [];
}

decide-identity_example :
    decide ascii cfg (get_by (some ann))
    ≡ grant_by
        (is_denied (bucket_decision ascii cfg (get_by (some ann)))
          || any (says_deny ascii cfg (args_of cfg (get_by (some ann)))) ann.policies)
        (not (sessions_allow ascii cfg (args_of cfg (get_by (some ann))) ann))
        (is_administrative (codes "s3:GetObject"))
        (grants (bucket_decision ascii cfg (get_by (some ann))))
        (any (says_allow ascii cfg (args_of cfg (get_by (some ann)))) ann.policies)
        (acl_allows cfg.canonical_id (get_by (some ann)))
decide-identity_example = decide-identity ascii cfg (get_by (some ann)) ann refl refl

-- ann's key without a session policy may list users.
abbrev list_users : Request
list_users = record (get_by (some (unrestricted ann))) {
  action = codes "iam:ListUsers";
  bucket_policy = [];
}

list_users-allowed : authorize ascii cfg list_users ≡ true
unfolding authorize decide bucket_decision identity_loop session_allows policy_decision evaluate
    statement_matches match_any match_any_vars any all match substitute_vars find_open has_prefix
    is_administrative args_of lower eq_bytes account_arn
list_users-allowed = refl

decide-administrative_example :
    (any (says_allow ascii cfg (args_of cfg list_users)) ann.policies ≡ true)
    × (any (says_deny ascii cfg (args_of cfg list_users)) ann.policies ≡ false)
    × (decide ascii cfg list_users ≡ by_policy)
decide-administrative_example =
    decide-administrative ascii cfg list_users (unrestricted ann) refl refl
      (unfold is_administrative any has_prefix in refl) list_users-allowed

decide-unrestricted_example :
    (decide ascii cfg (request_by (get_by none) ann) ≡ refused)
    ⊎ (decide ascii cfg (request_by (get_by none) ann)
        ≡ decide ascii cfg (request_by (get_by none) (unrestricted ann)))
decide-unrestricted_example = decide-unrestricted ascii cfg (get_by none) ann
