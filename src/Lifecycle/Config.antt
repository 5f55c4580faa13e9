-- ===== src/Lifecycle/Config.antt =====
-- internal/lifecycle/config.go: the document, and what eval.go takes and returns. Go's nil pointers
-- are `none`; an empty string stays an empty string. `Time` is in nanoseconds since year 1, UTC.
use opens.Prelude.{ℕ, ℤ, Bool, Option, List, Bytes}

abbrev pub Time : Type 0
Time = ℕ

pub record Tag : Type 0 where
  pub key : Bytes
  pub value : Bytes

pub record And : Type 0 where
  pub prefix : Option Bytes
  pub tags : List Tag
  pub object_size_greater_than : Option ℤ
  pub object_size_less_than : Option ℤ

pub record Filter : Type 0 where
  pub prefix : Option Bytes
  pub tag : Option Tag
  pub object_size_greater_than : Option ℤ
  pub object_size_less_than : Option ℤ
  pub and : Option And

pub record Expiration : Type 0 where
  pub days : ℤ
  pub date : Bytes
  pub expired_object_delete_marker : Option Bool

pub record NoncurrentVersionExpiration : Type 0 where
  pub noncurrent_days : ℤ
  pub newer_noncurrent_versions : ℤ

pub record AbortIncompleteMultipartUpload : Type 0 where
  pub days_after_initiation : ℤ

pub record Transition : Type 0 where
  pub days : ℤ
  pub date : Bytes
  pub storage_class : Bytes

pub record NoncurrentVersionTransition : Type 0 where
  pub noncurrent_days : ℤ
  pub storage_class : Bytes
  pub newer_noncurrent_versions : ℤ

pub record Rule : Type 0 where
  pub id : Bytes
  pub status : Bytes
  pub prefix : Option Bytes
  pub filter : Option Filter
  pub expiration : Option Expiration
  pub noncurrent_version_expiration : Option NoncurrentVersionExpiration
  pub abort_incomplete_multipart_upload : Option AbortIncompleteMultipartUpload
  pub transitions : List Transition
  pub noncurrent_version_transitions : List NoncurrentVersionTransition

pub record Config : Type 0 where
  pub rules : List Rule

-- The action kinds, lowest precedence first.
pub data Kind : Type 0 where
  none_kind noncurrent_transition transition remove_delete_marker : Kind
  expire_noncurrent_version expire_current : Kind

pub record Action : Type 0 where
  pub kind : Kind
  pub storage_class : Bytes
  pub rule_id : Bytes

pub record EvalInput : Type 0 where
  pub key : Bytes
  pub size : ℤ
  pub tags : List Tag
  pub mod_time : Time
  pub storage_class : Bytes
  pub is_latest : Bool
  pub delete_marker : Bool
  pub is_null : Bool
  pub has_older_versions : Bool
  pub noncurrent_since : Time
  pub newer_noncurrent_count : ℤ
