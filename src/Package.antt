-- ===== src/Package.antt =====
-- crates/nyarix-package: what a package contains, its signature and the trust in its key.
pub mod Signing
pub mod Archive
pub mod Trust
