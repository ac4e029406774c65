-- ===== src/Ws.antt =====
-- src/ws.rs: the websocket task.
pub mod Backoff
pub mod Messages
pub mod Connect
pub mod Task
