-- ===== src/Negotiator.antt =====
-- src/negotiator.rs: the handshake with a proxy.
pub mod Head
pub mod Handshakes
pub mod Tunnel
pub mod Opaque
