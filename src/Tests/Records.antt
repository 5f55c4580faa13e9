-- ===== src/Tests/Records.antt =====
-- A codec for the records of the store, in place of encoding/json: every field in order, texts and
-- lists behind their length.
use opens.Prelude.{refl, ℤ, Bool, List, Bytes, Map}
use opens.Iam.Types.{AclGrant, Acl, PublicAccessBlock}
use opens.Meta.Types.{Time, Tag, ObjectLockConfig, EncryptionRule, Part, Checksum, Sse, Retention}
use opens.Tests.Wire.{
  Wire, nat_wire, int_wire, bool_wire, text_wire, list_wire, pair_wire, map_wire,
}

grant_of : (Bytes × (Bytes × Bytes)) → AclGrant
grant_of (x0, (x1, x2)) = record { grantee = x0; grantee_type = x1; permission = x2 }

pub grant_wire : Wire AclGrant
unfolding grant_of
grant_wire =
    map_wire grant_of (λ r. (r.grantee, (r.grantee_type, r.permission))) (λ r. refl)
      (pair_wire text_wire (pair_wire text_wire text_wire))

acl_of : (Bytes × (List AclGrant)) → Acl
acl_of (x0, x1) = record { owner = x0; grants = x1 }

pub acl_wire : Wire Acl
unfolding acl_of
acl_wire =
    map_wire acl_of (λ r. (r.owner, r.grants)) (λ r. refl)
      (pair_wire text_wire (list_wire grant_wire))

block_of : (Bool × (Bool × (Bool × Bool))) → PublicAccessBlock
block_of (x0, (x1, (x2, x3))) = record {
  block_public_acls = x0;
  ignore_public_acls = x1;
  block_public_policy = x2;
  restrict_public_buckets = x3;
}

pub block_wire : Wire PublicAccessBlock
unfolding block_of
block_wire =
    map_wire block_of
      (λ r. (
        r.block_public_acls,
        (r.ignore_public_acls, (r.block_public_policy, r.restrict_public_buckets)),
      ))
      (λ r. refl) (pair_wire bool_wire (pair_wire bool_wire (pair_wire bool_wire bool_wire)))

tag_of : (Bytes × Bytes) → Tag
tag_of (x0, x1) = record { key = x0; value = x1 }

pub tag_wire : Wire Tag
unfolding tag_of
tag_wire = map_wire tag_of (λ r. (r.key, r.value)) (λ r. refl) (pair_wire text_wire text_wire)

lock_of : (Bytes × (ℤ × ℤ)) → ObjectLockConfig
lock_of (x0, (x1, x2)) = record { mode = x0; days = x1; years = x2 }

pub lock_wire : Wire ObjectLockConfig
unfolding lock_of
lock_wire =
    map_wire lock_of (λ r. (r.mode, (r.days, r.years))) (λ r. refl)
      (pair_wire text_wire (pair_wire int_wire int_wire))

encryption_of : (Bytes × (Bytes × Bool)) → EncryptionRule
encryption_of (x0, (x1, x2)) = record { algorithm = x0; kms_key_id = x1; bucket_key = x2 }

pub encryption_wire : Wire EncryptionRule
unfolding encryption_of
encryption_wire =
    map_wire encryption_of (λ r. (r.algorithm, (r.kms_key_id, r.bucket_key))) (λ r. refl)
      (pair_wire text_wire (pair_wire text_wire bool_wire))

part_of : (ℤ × (Bytes × (ℤ × (Bytes × (Bytes × Bytes))))) → Part
part_of (x0, (x1, (x2, (x3, (x4, x5))))) = record {
  number = x0;
  blob = x1;
  size = x2;
  etag = x3;
  checksum = x4;
  nonce = x5;
}

pub part_wire : Wire Part
unfolding part_of
part_wire =
    map_wire part_of (λ r. (r.number, (r.blob, (r.size, (r.etag, (r.checksum, r.nonce))))))
      (λ r. refl)
      (pair_wire int_wire (
        pair_wire text_wire
          (pair_wire int_wire (pair_wire text_wire (pair_wire text_wire text_wire)))))

checksum_of : (Bytes × (Bytes × Bytes)) → Checksum
checksum_of (x0, (x1, x2)) = record { algorithm = x0; value = x1; type = x2 }

pub checksum_wire : Wire Checksum
unfolding checksum_of
checksum_wire =
    map_wire checksum_of (λ r. (r.algorithm, (r.value, r.type))) (λ r. refl)
      (pair_wire text_wire (pair_wire text_wire text_wire))

sse_of : (Bytes × (Bytes × (Bytes × (Bytes × (Map Bytes))))) → Sse
sse_of (x0, (x1, (x2, (x3, x4)))) = record {
  type = x0;
  kms_key_id = x1;
  wrapped_key = x2;
  customer_key_md5 = x3;
  context = x4;
}

pub sse_wire : Wire Sse
unfolding sse_of
sse_wire =
    map_wire sse_of
      (λ r. (r.type, (r.kms_key_id, (r.wrapped_key, (r.customer_key_md5, r.context))))) (λ r. refl)
      (pair_wire text_wire (
        pair_wire text_wire
          (pair_wire text_wire (pair_wire text_wire (list_wire (pair_wire text_wire text_wire))))))

retention_of : (Bytes × Time) → Retention
retention_of (x0, x1) = record { mode = x0; retain_until = x1 }

pub retention_wire : Wire Retention
unfolding retention_of
retention_wire =
    map_wire retention_of (λ r. (r.mode, r.retain_until)) (λ r. refl) (pair_wire text_wire nat_wire)
