-- ===== src/Policy.antt =====
-- internal/policy/policy.go: IAM and bucket policies.
pub mod Std
pub mod Glob
pub mod Document
pub mod Vars
pub mod Operators
pub mod Condition
pub mod Evaluate
pub mod Bucket
