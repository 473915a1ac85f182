-- ===== src/Proto.antt =====
-- crates/proto: addresses, the UDP-over-TCP packets and the SOCKS5 protocol.
pub mod Addr
pub mod Uot
pub mod Utf8
pub mod Target
pub mod Conn
pub mod Socks5
pub mod Inbound
pub mod Http
