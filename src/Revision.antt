-- ===== src/Revision.antt =====
-- src/revision.rs: the language of revisions.
pub mod Suffixes
pub mod Resolve
pub mod Lineage
pub mod Base
pub mod Places
pub mod Range
pub mod Bounds
