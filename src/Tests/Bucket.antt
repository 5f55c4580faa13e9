-- ===== src/Tests/Bucket.antt =====
-- Runs and witnesses for internal/policy/policy.go: `ValidateBucketPolicy`, `IsPublic`, `ResourceARN`.
use opens.Prelude.{◌≡◌, refl, false, none, some, [], ◌∷◌, codes, has_prefix, any}
use opens.Policy.Glob.{match}
use opens.Policy.Vars.{find_open, substitute_vars}
use opens.Policy.Document.{allow, Statement, allowed}
use opens.Policy.Evaluate.{evaluate, match_any, match_any_vars}
use opens.Policy.Bucket.{is_public}
use opens.Policy.Bucket.Laws.{is_public-not_principal}
use opens.Tests.Ascii.{ascii, lower}
use opens.Tests.Policy.{statement_on, document_of, get_object, ann}

abbrev on_bucket : Statement
on_bucket = statement_on allow (codes "arn:aws:s3:::b/k/*")

-- Everyone but ann may read.
abbrev but_ann : Statement
but_ann = record on_bucket { principal = none; not_principal = some ann }

is_public-not_principal_example :
    (evaluate ascii (document_of (but_ann ∷ [])) (get_object (codes "arn:aws:s3:::b/k/x"))
      ≡ allowed)
    × (is_public ascii (document_of (but_ann ∷ [])) ≡ false)
is_public-not_principal_example =
    is_public-not_principal ascii (document_of (but_ann ∷ [])) but_ann ann
      (get_object (codes "arn:aws:s3:::b/k/x")) refl refl refl refl refl refl refl refl refl
      (unfold match_any any match lower in refl)
      (unfold match_any_vars any match substitute_vars find_open has_prefix in refl)
