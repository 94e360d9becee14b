-- ===== src/Runtime.antt =====
-- crates/nyarix-runtime: the scheduling of work.
pub mod Priority
pub mod Lifecycle
pub mod Builder
pub mod Enforcement
pub mod Pause
pub mod Loop
