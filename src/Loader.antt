-- ===== src/Loader.antt =====
-- crates/nyarix-loader: what is known of the packages that may be loaded.
pub mod Dependencies
pub mod Rollback
pub mod Cache
pub mod Versions
pub mod Conflicts
