-- ===== src/Prelude/Bytes.antt =====
-- Byte strings: Rust's `str` and `[u8]` as lists of byte values, with the operations of the
-- standard library that the code uses.
mod Basic
mod Split
mod Utf8
unfoldable pub use Basic.*
unfoldable pub use Split.*
unfoldable pub use Utf8.*
