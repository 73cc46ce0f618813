-- ===== src/Commands.antt =====
-- The commands that write configuration files: crates/signedpulse-server/src/cli.rs and
-- crates/signedpulse-client/src/cli.rs.
pub mod Tokens
pub mod File
pub mod AddClient
pub mod AddServer
pub mod Install
