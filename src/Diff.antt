-- ===== src/Diff.antt =====
-- src/diff.rs: comparing two states and two blobs.
pub mod Script
pub mod Lcs
pub mod Minimal
pub mod States
pub mod Changes
pub mod Renames
