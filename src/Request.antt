-- ===== src/Request.antt =====
-- src/request.rs: requests, how they are sent, and the exchange with its retries.
pub mod Trail
pub mod Body
pub mod Attempt
pub mod Exchange
pub mod Send
