-- ===== src/Tests.antt =====
-- Runs of the definitions on concrete inputs, and the theorems at inputs that meet their hypotheses.
mod Ascii
mod Engine
mod Wire
mod Records
mod Buckets
mod Objects
mod Uploads
mod Meta
mod Listing
mod Runs
mod Completion
mod Reading
mod Service
mod Glob
mod Policy
mod Bucket
mod Iam
mod Lifecycle
