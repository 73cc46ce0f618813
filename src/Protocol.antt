-- ===== src/Protocol.antt =====
-- The wire protocol, crates/signedpulse-common/src/protocol.rs: the packets, their binary form, the
-- client identifiers and the payloads that both peers sign.
pub mod Words
pub mod Reader
pub mod Packet
pub mod Payload
pub mod Hex
