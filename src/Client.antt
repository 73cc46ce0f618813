-- ===== src/Client.antt =====
-- The client, crates/signedpulse-client/src/client.rs.
pub mod Target
pub mod Cycle
pub mod Run
