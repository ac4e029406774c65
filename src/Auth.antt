-- ===== src/Auth.antt =====
-- src/auth.rs: sessions, the refresh gate and the authentication state.
pub mod Session
pub mod Claims
pub mod Debug
pub mod Gate
pub mod State
pub mod Calls
pub mod Flight
