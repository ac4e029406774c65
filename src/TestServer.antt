-- ===== src/TestServer.antt =====
-- src/testserver.rs: the server that stands in for the API in the tests of the client. Reading the head of
-- a request from the socket, and the pauses, are not modelled: a request has its path, headers and body.
pub mod State
pub mod Reply
pub mod Media
pub mod Serve
pub mod Own
pub mod Apart
pub mod Paced
pub mod Relay
