-- ===== src/Tests/Policy.antt =====
-- Runs and witnesses for internal/policy/policy.go: conditions and `Evaluate`.
use opens.Prelude.{
  ◌≡◌, refl, true, false, none, some, List, [], ◌∷◌, Bytes, Map, codes, has_prefix, any,
}
use opens.Policy.Vars.{find_open}
use opens.Policy.Document.{Effect, allow, deny, Principal, Statement, Document, Args, no_match}
use opens.Policy.Evaluate.{evaluate}
use opens.Policy.Evaluate.Laws.{verdict, denies, allows, evaluate-verdict, evaluate-star_missed}
use opens.Tests.Ascii.{ascii}

abbrev pub everyone : Principal
everyone = record { everyone = true; aws = []; federated = []; service = []; canonical = [] }

abbrev pub ann : Principal
ann = record {
  everyone = false;
  aws = codes "arn:aws:iam::1:user/ann" ∷ [];
  federated = [];
  service = [];
  canonical = [];
}

abbrev pub statement_on : Effect → Bytes → Statement
statement_on effect resource = record {
  sid = [];
  effect = effect;
  principal = some everyone;
  not_principal = none;
  actions = codes "s3:GetObject" ∷ [];
  not_actions = [];
  resources = resource ∷ [];
  not_resources = [];
  conditions = [];
}

abbrev pub document_of : List Statement → Document
document_of sts = record { version = codes "2012-10-17"; id = []; statements = sts }

abbrev pub get_object : Bytes → Args
get_object resource = record {
  action = codes "s3:GetObject";
  resource = resource;
  principal_arn = [];
  canonical_id = [];
  anonymous = true;
  conditions = [];
  vars = [];
}

abbrev allow_all : Statement
allow_all = statement_on allow (codes "arn:aws:s3:::b/*")

abbrev deny_k : Statement
deny_k = statement_on deny (codes "arn:aws:s3:::b/k/*")

abbrev get_k : Args
get_k = get_object (codes "arn:aws:s3:::b/k/x")

evaluate-verdict_example :
    evaluate ascii (document_of (allow_all ∷ deny_k ∷ [])) get_k
    ≡ verdict
        (any (denies ascii get_k) (allow_all ∷ deny_k ∷ []))
        (any (allows ascii get_k) (allow_all ∷ deny_k ∷ []))
evaluate-verdict_example = evaluate-verdict ascii (document_of (allow_all ∷ deny_k ∷ [])) get_k

abbrev by_user : Bytes × Map (List Bytes)
by_user = (codes "StringEquals", (codes "aws:username", codes "ann" ∷ []) ∷ [])

abbrev transport : Bytes × Map (List Bytes)
transport = (codes "Bool", (codes "aws:SecureTransport", codes "true" ∷ []) ∷ [])

abbrev two_conditions : Map (Map (List Bytes))
two_conditions = by_user ∷ transport ∷ []

abbrev two_swapped : Map (Map (List Bytes))
two_swapped = transport ∷ by_user ∷ []

abbrev limited : Statement
limited = record allow_all { conditions = two_conditions }

evaluate-star_missed_example :
    evaluate ascii (document_of (deny_k ∷ [])) (get_object (codes "arn:aws:s3:::b/k/*x")) ≡ no_match
evaluate-star_missed_example =
    evaluate-star_missed ascii deny_k (document_of (deny_k ∷ []))
      (get_object (codes "arn:aws:s3:::b/k/*x")) (codes "arn:aws:s3:::b/k/") [] b'x' refl
      (unfold find_open has_prefix in refl) refl refl
