-- ===== src/Ignore.antt =====
-- src/ignore.rs: the rules of `.tallyignore`. A text is the list of its `char`s here.
pub mod Rules
pub mod Classes
pub mod Glob
pub mod Matching
pub mod Verdict
