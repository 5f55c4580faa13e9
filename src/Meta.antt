-- ===== src/Meta.antt =====
-- internal/meta: the layout of record keys, and the records of buckets, objects and uploads.
pub mod Hex
pub mod Keys
pub mod Types
pub mod Store
pub mod Latest
pub mod Scan
pub mod Listing
pub mod Collect
pub mod Uploads
