-- ===== src/Iam/Acl/Laws.antt =====
-- Who an ACL lets in when ACLs are disabled or public grants are ignored.
use opens.Prelude.{
  ◌≡◌, refl, Bool, true, false, Option, none, some, List, [], ◌∷◌, Bytes, codes, eq_bytes_refl, any,
  arith,
}
use opens.Iam.Types.{Identity, Acl, AclGrant, Request}
use opens.Iam.Acl.{
  ignore_public, owned_by, acl_has, acl_allows, acl_case, by_case, on_bucket, on_object, owner_only,
  AclCase, grant_gives,
}

module _ (canonical_id : Bytes → Bytes) where
  no_public_grant :
      (perm : Bytes) (grants : List AclGrant)
      → any (grant_gives canonical_id none true perm) grants ≡ false
  unfolding any grant_gives
  no_public_grant perm [] = refl
  no_public_grant perm (g ∷ grants) = ground (arith, no_public_grant perm grants)

  anonymous_acl :
      (acl : Option Acl) (owner perm : Bytes)
      → acl_has canonical_id none true acl owner perm ≡ false
  unfolding acl_has owned_by
  anonymous_acl none owner perm = refl
  anonymous_acl (some a) owner perm = no_public_grant perm a.grants

  anonymous_acl_at :
      (id : Option Identity) (ignore : Bool) (acl : Option Acl) (owner perm : Bytes)
      → id ≡ none
      → ignore ≡ true
      → acl_has canonical_id id ignore acl owner perm ≡ false
  anonymous_acl_at id ignore acl owner perm e f = rw (e, f) (anonymous_acl acl owner perm)

  owned_by-none :
      (r : Request) → r.identity ≡ none → owned_by canonical_id r.identity r.bucket_owner ≡ false
  unfolding owned_by
  owned_by-none r i = rw i

  by_case-anonymous :
      (r : Request)
      → r.identity ≡ none
      → ignore_public r ≡ true
      → (c : AclCase) → by_case canonical_id r c ≡ false
  unfolding by_case
  by_case-anonymous r i p (on_bucket perm) =
      anonymous_acl_at r.identity (ignore_public r) r.bucket_acl r.bucket_owner perm i p
  by_case-anonymous r i p (on_object perm) =
      anonymous_acl_at r.identity (ignore_public r) r.object_acl r.object_owner perm i p
  by_case-anonymous r i p owner_only = owned_by-none r i

  -- Where public ACLs are ignored, no ACL allows an anonymous request, whatever its action.
  pub acl_allows-anonymous :
      (r : Request) → r.identity ≡ none → ignore_public r ≡ true → acl_allows canonical_id r ≡ false
  unfolding acl_allows
  acl_allows-anonymous r i p =
      ground (arith, by_case-anonymous r i p (acl_case r.action), owned_by-none r i)

  -- Where the bucket owner is enforced, ACLs allow the owner of the bucket and nobody else.
  pub acl_allows-owner_enforced :
      (r : Request)
      → r.ownership ≡ codes "BucketOwnerEnforced"
      → acl_allows canonical_id r ≡ owned_by canonical_id r.identity r.bucket_owner
  unfolding acl_allows
  acl_allows-owner_enforced r o = rw o (rw (eq_bytes_refl (codes "BucketOwnerEnforced")))
