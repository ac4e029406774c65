-- ===== src/FingerprintCheck.antt =====
-- examples/fingerprint_check.rs: the program that asks a server which fingerprint the client shows, and
-- compares it with the one expected.
pub mod Expected
pub mod Ja4
pub mod Checks
pub mod HeaderOrder
pub mod Run
