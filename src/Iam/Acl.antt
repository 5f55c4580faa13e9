-- ===== src/Iam/Acl.antt =====
-- internal/iam/authz.go, `aclAllows`: bucket and object ACL grants.
pub mod Laws
use opens.Prelude.{
  Bool, true, false, not, ◌&&◌, ◌||◌, Option, none, some, List, [], ◌∷◌, ◌++◌, Bytes, Map, codes,
  eq_bytes, any, is_nil, if◌then◌else◌,
}
use opens.Iam.Types.{Identity, Acl, AclGrant, PublicAccessBlock, Request, name_of}

abbrev all_users : Bytes
all_users = codes "http://acs.amazonaws.com/groups/global/AllUsers"

abbrev authenticated_users : Bytes
authenticated_users = codes "http://acs.amazonaws.com/groups/global/AuthenticatedUsers"

unfoldable pub ignore_public : Request → Bool
ignore_public r = elim r.public_access_block [ none ↦ false | some b ↦ b.ignore_public_acls ]

-- The actions of each case of the switch, and whether it asks the bucket or the object.
pub data AclCase : Type 0 where
  on_bucket on_object : Bytes → AclCase
  owner_only : AclCase

pub is_one_of : Bytes → List Bytes → Bool
is_one_of action names = any (λ n. eq_bytes action n) names

pub acl_case : Bytes → AclCase
unfolding is_one_of
acl_case action =
    if is_one_of action (
      codes "s3:ListBucket"
      ∷ codes "s3:ListBucketVersions"
      ∷ codes "s3:ListBucketMultipartUploads"
      ∷ codes "s3:GetBucketLocation"
      ∷ [])
    then on_bucket (codes "READ")
    else if is_one_of action (
        codes "s3:PutObject"
        ∷ codes "s3:DeleteObject"
        ∷ codes "s3:DeleteObjectVersion"
        ∷ codes "s3:AbortMultipartUpload"
        ∷ [])
    then on_bucket (codes "WRITE")
    else if eq_bytes action (codes "s3:GetBucketAcl")
    then on_bucket (codes "READ_ACP")
    else if eq_bytes action (codes "s3:PutBucketAcl")
    then on_bucket (codes "WRITE_ACP")
    else if is_one_of action (
        codes "s3:GetObject"
        ∷ codes "s3:GetObjectVersion"
        ∷ codes "s3:GetObjectTagging"
        ∷ codes "s3:GetObjectVersionTagging"
        ∷ codes "s3:GetObjectAttributes"
        ∷ codes "s3:ListMultipartUploadParts"
        ∷ codes "s3:GetObjectRetention"
        ∷ codes "s3:GetObjectLegalHold"
        ∷ [])
    then on_object (codes "READ")
    else if is_one_of action (codes "s3:GetObjectAcl" ∷ codes "s3:GetObjectVersionAcl" ∷ [])
    then on_object (codes "READ_ACP")
    else if is_one_of action (codes "s3:PutObjectAcl" ∷ codes "s3:PutObjectVersionAcl" ∷ [])
    then on_object (codes "WRITE_ACP")
    else owner_only

-- `canonical_id` is the hash of a user name.
module _ (canonical_id : Bytes → Bytes) where
  -- id != nil && owner != "" && id.CanonicalID() == owner
  unfoldable pub owned_by : Option Identity → Bytes → Bool
  owned_by none owner = false
  owned_by (some id) owner = not (is_nil owner) && eq_bytes (canonical_id (name_of id)) owner

  -- The `match` of one grant.
  pub grantee_matches : Option Identity → Bool → AclGrant → Bool
  grantee_matches id ignore g =
      if eq_bytes g.grantee_type (codes "Group")
      then (if eq_bytes g.grantee all_users
          then not ignore
          else if eq_bytes g.grantee authenticated_users
          then elim id [ none ↦ false | some _ ↦ not ignore ]
          else false)
      else elim id [ none ↦ false | some i ↦ eq_bytes g.grantee (canonical_id (name_of i)) ]

  unfoldable pub grant_gives : Option Identity → Bool → Bytes → AclGrant → Bool
  unfolding grantee_matches
  grant_gives id ignore perm g =
      grantee_matches id ignore g
      && (eq_bytes g.permission (codes "FULL_CONTROL") || eq_bytes g.permission perm)

  -- has(acl, owner, perm); every call gives one permission
  pub acl_has : Option Identity → Bool → Option Acl → Bytes → Bytes → Bool
  unfolding grant_gives
  acl_has id ignore acl owner perm =
      if owned_by id owner
      then true
      else elim acl [ none ↦ false | some a ↦ any (grant_gives id ignore perm) a.grants ]

  -- The switch of aclAllows.
  by_case : Request → AclCase → Bool
  unfolding acl_has
  by_case r (on_bucket perm) = acl_has r.identity (ignore_public r) r.bucket_acl r.bucket_owner perm
  by_case r (on_object perm) = acl_has r.identity (ignore_public r) r.object_acl r.object_owner perm
  by_case r owner_only = owned_by r.identity r.bucket_owner

  -- aclAllows(r)
  unfoldable pub acl_allows : Request → Bool
  unfolding by_case
  acl_allows r =
      if eq_bytes r.ownership (codes "BucketOwnerEnforced")
      then owned_by r.identity r.bucket_owner
      else by_case r (acl_case r.action)
