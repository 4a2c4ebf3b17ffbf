-- ===== src/Tunnel.antt =====
-- internal/tunnel.
pub mod Tcp
pub mod Udp
