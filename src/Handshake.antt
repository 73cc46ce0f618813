-- ===== src/Handshake.antt =====
-- The client of crates/signedpulse-client/src/client.rs against the server of
-- crates/signedpulse-server/src/server.rs.
pub mod Welcome
pub mod Attempt
pub mod Clear
pub mod Sealed
