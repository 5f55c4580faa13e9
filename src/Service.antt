-- ===== src/Service.antt =====
-- internal/object: the object service.
pub mod Lock
pub mod Delete
pub mod Conditions
pub mod Update
pub mod Put
pub mod Sound
pub mod Held
pub mod Runs
pub mod Assemble
pub mod Uploads
pub mod Get
