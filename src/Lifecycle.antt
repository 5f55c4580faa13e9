-- ===== src/Lifecycle.antt =====
-- internal/lifecycle: lifecycle configurations, their validation and their evaluation.
pub mod Config
pub mod Time
pub mod Eval
pub mod Filters
pub mod Validate
