-- ===== src/Rest.antt =====
-- src/rest.rs: the pure part of the REST layer. `Lossy` and `Search` are the string operations of
-- the standard library that it uses; `Summary`, `Block` and `ApiError` are its functions.
pub mod Lossy
pub mod Search
pub mod Summary
pub mod Block
pub mod ApiError
