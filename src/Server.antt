-- ===== src/Server.antt =====
-- The server, crates/signedpulse-server/src/server.rs: its state, and the steps that its handlers
-- are made of. A handler that awaits the hook is cut there, and RESPONSE and BYE are also cut
-- between the signature check and the atomic consumption of the nonce, where another task may run.
-- Each step reads the clocks once. Log lines are left out, and the decoy signature checks on
-- unknown clients too, whose results are discarded.
pub mod State
pub mod Startup
pub mod Param
pub mod Hello
pub mod Session
pub mod Response
pub mod Bye
pub mod Receive
pub mod Interleaving
