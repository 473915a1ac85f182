-- ===== src/Tunnel.antt =====
-- crates/tunnel: the records that carry a session's bytes. Noise is the interface to the `snow` crate
-- and the counters of nonces, Writing and Reading are the two halves of `SnowyStream` of common.rs.
-- Plain is the stream of bytes that a sequence of records stands for.
pub mod Noise
pub mod Writing
pub mod Reading
pub mod Plain
pub mod Delivery
pub mod Auth
