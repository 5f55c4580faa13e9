-- ===== src/Iam/Types.antt =====
-- internal/iam/types.go, actions.go and the requests of authz.go; internal/meta/types.go for ACLs.
use opens.Prelude.{
  Bool, true, false, not, ◌&&◌, ◌||◌, Option, none, some, List, [], ◌∷◌, ◌++◌, Bytes, Map, codes,
  has_prefix, any, is_nil, if◌then◌else◌,
}

-- A policy document as it is stored: its JSON text.
abbrev pub RawMessage : Type 0
RawMessage = Bytes

pub record User : Type 0 where
  pub name : Bytes
  pub path : Bytes
  pub enabled : Bool
  pub policies : List Bytes
  pub groups : List Bytes

pub data KeyKind : Type 0 where
  kind_user kind_service kind_sts : KeyKind

pub record Key : Type 0 where
  pub access_key : Bytes
  pub owner : Bytes
  pub kind : KeyKind
  pub enabled : Bool
  pub session_policy : RawMessage
  pub parent_policies : List RawMessage

-- `user` is not read for the root account, which has none.
pub record Identity : Type 0 where
  pub user : User
  pub key : Option Key
  pub is_root : Bool
  pub policies : List RawMessage
  pub session_policy : RawMessage
  pub parent_policies : List RawMessage
  pub account_id : Bytes

-- Identity.Restricted()
pub is_restricted : Identity → Bool
is_restricted id =
    not id.is_root && (not (is_nil id.session_policy) || not (is_nil id.parent_policies))

-- Identity.Name()
unfoldable pub name_of : Identity → Bytes
name_of id = if id.is_root then codes "root" else id.user.name

-- AccountARN and UserARN
unfoldable pub account_arn : Bytes → Bytes
account_arn account = codes "arn:aws:iam::" ++ (account ++ codes ":root")

pub user_arn : Bytes → Bytes → Bytes
user_arn account name = codes "arn:aws:iam::" ++ (account ++ (codes ":user/" ++ name))

-- Identity.ARN()
unfoldable pub arn_of : Identity → Bytes
unfolding account_arn user_arn
arn_of id = if id.is_root then account_arn id.account_id else user_arn id.account_id id.user.name

is_sts : Option Key → Bool
is_sts none = false
is_sts (some k) = elim k.kind [ kind_sts ↦ true | _ ↦ false ]

-- PrincipalType() of an identity and of the anonymous caller
unfoldable pub principal_type : Option Identity → Bytes
unfolding is_sts
principal_type none = codes "Anonymous"
principal_type (some id) =
    if id.is_root
    then codes "Account"
    else if is_sts id.key
    then codes "AssumedRole"
    else codes "User"

-- IsAdministrative(action)
unfoldable pub is_administrative : Bytes → Bool
is_administrative action =
    any (λ p. has_prefix action p)
      (codes "iam:" ∷ codes "kms:" ∷ codes "sts:" ∷ codes "opens3:" ∷ [])

-- meta.Grant; GranteeType is CanonicalUser or Group.
pub record AclGrant : Type 0 where
  pub grantee : Bytes
  pub grantee_type : Bytes
  pub permission : Bytes

pub record Acl : Type 0 where
  pub owner : Bytes
  pub grants : List AclGrant

pub record PublicAccessBlock : Type 0 where
  pub block_public_acls : Bool
  pub ignore_public_acls : Bool
  pub block_public_policy : Bool
  pub restrict_public_buckets : Bool

pub record Request : Type 0 where
  pub identity : Option Identity
  pub action : Bytes
  pub bucket : Bytes
  pub key : Bytes
  pub resource : Bytes
  pub bucket_owner : Bytes
  pub bucket_policy : RawMessage
  pub bucket_acl : Option Acl
  pub public_access_block : Option PublicAccessBlock
  pub ownership : Bytes
  pub object_owner : Bytes
  pub object_acl : Option Acl
  pub self_lock_confirmed : Bool
  pub conditions : Map (List Bytes)

-- The type `Grant` of authz.go
pub data Grant : Type 0 where
  refused no_grant by_policy by_acl : Grant

-- Grant.Allowed()
unfoldable pub is_allowed : Grant → Bool
is_allowed by_policy = true
is_allowed by_acl = true
is_allowed _ = false
