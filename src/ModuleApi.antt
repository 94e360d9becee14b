-- ===== src/ModuleApi.antt =====
-- crates/nyarix-module-api: the decisions that do not need a loaded module.
pub mod Versioning
pub mod Fallback
pub mod Capability
pub mod IoPolicy
pub mod RateLimiter
pub mod Event
pub mod Context
pub mod Metrics
