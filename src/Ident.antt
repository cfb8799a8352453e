-- ===== src/Ident.antt =====
-- src/ident.rs: hexadecimal digests and element records.
pub mod Hex
pub mod Record
pub mod RoundTrip
