-- ===== src/Auth/Calls.antt =====
-- src/auth.rs: the calls that talk to the server: sign-in, refresh, and the authorization of a
-- request. Each lock that the code awaits is an `await` of the model.
pub mod Refresh
pub mod SignIn
pub mod Authorize
