-- ===== src/Iam.antt =====
-- internal/iam: identities and authorisation decisions.
pub mod Types
pub mod Acl
pub mod Decide
