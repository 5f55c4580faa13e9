-- ===== src/Meta/Types.antt =====
-- internal/meta/types.go: the records of the store. Go's nil pointers are `none`; an empty string, slice
-- or map and a nil one are the same. Times are in nanoseconds since year 1, UTC.
use opens.Prelude.{ℕ, ℤ, Bool, Option, List, Bytes, Map}
use opens.Iam.Types.{Acl, PublicAccessBlock}

abbrev pub Time : Type 0
Time = ℕ

pub record Tag : Type 0 where
  pub key : Bytes
  pub value : Bytes

pub record ObjectLockConfig : Type 0 where
  pub mode : Bytes
  pub days : ℤ
  pub years : ℤ

pub record EncryptionRule : Type 0 where
  pub algorithm : Bytes
  pub kms_key_id : Bytes
  pub bucket_key : Bool

-- The bucket record, less `MetricsXML`, `AnalyticsXML`, `InventoryXML` and `IntelligentTieringXML`,
-- which are only stored and returned.
pub record Bucket : Type 0 where
  pub name : Bytes
  pub owner : Bytes
  pub owner_display : Bytes
  pub created : Time
  pub deleting : Bool
  pub region : Bytes
  pub versioning : Bytes
  pub mfa_delete : Bool
  pub object_lock_enabled : Bool
  pub object_lock : Option ObjectLockConfig
  pub tags : List Tag
  pub policy : Bytes
  pub policy_text : Bytes
  pub acl : Option Acl
  pub encryption : Option EncryptionRule
  pub public_access_block : Option PublicAccessBlock
  pub ownership : Bytes
  pub quota : Option ℤ
  pub self_lock : Bool
  pub lifecycle_xml : Bytes
  pub cors_xml : Bytes
  pub notification_xml : Bytes
  pub website_xml : Bytes
  pub logging_xml : Bytes
  pub replication_xml : Bytes
  pub accelerate_xml : Bytes
  pub request_payment_xml : Bytes

pub record Part : Type 0 where
  pub number : ℤ
  pub blob : Bytes
  pub size : ℤ
  pub etag : Bytes
  pub checksum : Bytes
  pub nonce : Bytes

pub record Checksum : Type 0 where
  pub algorithm : Bytes
  pub value : Bytes
  pub type : Bytes

pub record Sse : Type 0 where
  pub type : Bytes
  pub kms_key_id : Bytes
  pub wrapped_key : Bytes
  pub customer_key_md5 : Bytes
  pub context : Map Bytes

pub record Retention : Type 0 where
  pub mode : Bytes
  pub retain_until : Time

pub record Object : Type 0 where
  pub bucket : Bytes
  pub key : Bytes
  pub version_id : Bytes
  pub seq : ℕ
  pub delete_marker : Bool
  pub size : ℤ
  pub etag : Bytes
  pub mod_time : Time
  pub owner : Bytes
  pub owner_display : Bytes
  pub content_type : Bytes
  pub content_encoding : Bytes
  pub content_disposition : Bytes
  pub content_language : Bytes
  pub cache_control : Bytes
  pub expires : Bytes
  pub website_redirect : Bytes
  pub user_meta : Map Bytes
  pub tags : List Tag
  pub storage_class : Bytes
  pub acl : Option Acl
  pub parts : List Part
  pub checksum : Option Checksum
  pub sse : Option Sse
  pub retention : Option Retention
  pub legal_hold : Bool
  pub restore_expiry : Option Time

pub record Upload : Type 0 where
  pub bucket : Bytes
  pub key : Bytes
  pub upload_id : Bytes
  pub initiated : Time
  pub owner : Bytes
  pub owner_display : Bytes
  pub content_type : Bytes
  pub content_encoding : Bytes
  pub content_disposition : Bytes
  pub content_language : Bytes
  pub cache_control : Bytes
  pub expires : Bytes
  pub website_redirect : Bytes
  pub user_meta : Map Bytes
  pub tags : List Tag
  pub storage_class : Bytes
  pub acl : Option Acl
  pub sse : Option Sse
  pub checksum_algorithm : Bytes
  pub checksum_type : Bytes
  pub retention : Option Retention
  pub legal_hold : Bool
