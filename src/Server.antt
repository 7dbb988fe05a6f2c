-- ===== src/Server.antt =====
-- internal/server: the proxy front ends and what they share.
pub mod RateLimiter
pub mod Registry
pub mod Hub
pub mod Gate
pub mod State
pub mod Tunnel
pub mod Socks
pub mod Http
pub mod Gui
pub mod Control
