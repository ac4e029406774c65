-- ===== src/Stream.antt =====
-- src/stream/: the body of a streamed upload, the task that reads its source, and the watchdog.
pub mod Pump
pub mod Body
pub mod Pipe
pub mod Watchdog
