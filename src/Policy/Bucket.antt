-- ===== src/Policy/Bucket.antt =====
-- internal/policy/policy.go: `ValidateBucketPolicy`, `Document.IsPublic` and `ResourceARN`.
pub mod Laws
use opens.Prelude.{
  ℕ, Bool, true, false, not, ◌&&◌, ◌||◌, Option, none, some, List, [], ◌∷◌, ◌++◌, Bytes, Map, codes,
  eq_bytes, has_prefix, index_byte, length, take, drop, any, is_nil, first_error, ◌⊳◌,
  if◌then◌else◌,
}
use opens.Policy.Std.{Std}
use opens.Policy.Glob.{match}
use opens.Policy.Document.{Effect, allow, deny, Principal, Statement, Document, Conditions}
use opens.Policy.Operators.{
  Operator, string_equals, string_equals_ignore_case, string_like, numeric_equals, date_equals,
  bool, binary_equals, ip_address, arn_equals, arn_like, split_operator,
}

-- What the wrapped ErrMalformed says.
pub data PolicyError : Type 0 where
  missing_principal : PolicyError
  invalid_resource foreign_resource invalid_action : Bytes → PolicyError

abbrev pub arn_prefix : Bytes
arn_prefix = codes "arn:aws:s3:::"

-- The bucket part of a resource, up to the first `/`.
unfoldable pub bucket_part : Bytes → Bytes
bucket_part rest = elim (index_byte rest b'/') [ none ↦ rest | some i ↦ take i rest ]

unfoldable pub check_resource : Bytes → Bytes → Option PolicyError
unfolding bucket_part
check_resource bucket r =
    let b = bucket_part (drop (length arn_prefix) r) in
    if not (has_prefix r arn_prefix)
    then some (invalid_resource r)
    else if not (match b bucket) && not (eq_bytes b bucket)
    then some (foreign_resource r)
    else none

abbrev no_principal : Statement → Bool
no_principal st = elim st.principal [
  | some _ ↦ false
  | none ↦ elim st.not_principal [ some _ ↦ false | none ↦ true ]
]

module _ (std : Std) where
  unfoldable pub check_action : Bytes → Option PolicyError
  check_action a =
      if not (eq_bytes a (codes "*")) && not (has_prefix (std.to_lower a) (codes "s3:"))
      then some (invalid_action a)
      else none

  pub check_statement : Bytes → Statement → Option PolicyError
  check_statement bucket st =
      if no_principal st
      then some missing_principal
      else first_error (check_resource bucket) (st.resources ++ st.not_resources)
        ⊳ first_error check_action (st.actions ++ st.not_actions)

  -- ValidateBucketPolicy(d, bucket); `none` where the error is nil
  unfoldable pub validate_bucket_policy : Document → Bytes → Option PolicyError
  unfolding check_statement
  validate_bucket_policy d bucket = first_error (check_statement bucket) d.statements

  -- The `switch base` of IsPublic.
  limiting_base : Operator → Bool
  limiting_base ip_address = true
  limiting_base arn_equals = true
  limiting_base arn_like = true
  limiting_base string_equals = true
  limiting_base string_like = true
  limiting_base string_equals_ignore_case = true
  limiting_base bool = true
  limiting_base binary_equals = true
  limiting_base numeric_equals = true
  limiting_base date_equals = true
  limiting_base _ = false

  limiting_key : Bytes → Bool
  limiting_key k =
      let lk = std.to_lower k in
      has_prefix lk (codes "aws:sourcevpc")
      || (eq_bytes lk (codes "aws:sourceip")
          || (has_prefix lk (codes "aws:principal")
              || (eq_bytes lk (codes "aws:userid")
                  || (eq_bytes lk (codes "aws:sourcearn")
                      || (eq_bytes lk (codes "aws:sourceaccount")
                          || has_prefix lk (codes "s3:dataaccesspoint"))))))

  -- Whether one of the conditions makes a statement for everyone limited.
  pub limiting : Conditions → Bool
  unfolding limiting_base limiting_key
  limiting cs =
      any
        (λ c. elim (split_operator c.0) [
          | none ↦ false
          | some o ↦ limiting_base o.base && any (λ k. limiting_key k.0) c.1
        ])
        cs

  pub public_statement : Statement → Bool
  public_statement st = elim st.effect [
    | deny ↦ false
    | allow ↦ elim st.principal [
      | none ↦ false
      | some p ↦ p.everyone && not (limiting st.conditions)
    ]
  ]

  -- Document.IsPublic()
  pub is_public : Document → Bool
  unfolding public_statement
  is_public d = any public_statement d.statements

-- ResourceARN(bucket, key)
pub resource_arn : Bytes → Bytes → Bytes
resource_arn bucket [] = arn_prefix ++ bucket
resource_arn bucket (c ∷ key) = arn_prefix ++ (bucket ++ b'/' ∷ c ∷ key)
