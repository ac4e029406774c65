-- ===== src/Media.antt =====
-- src/media.rs and src/media/: fetching media from a CDN.
pub mod Hosts
pub mod Transfer
pub mod Liveness
pub mod Request
pub mod Send
pub mod Fetch
pub mod Stream
