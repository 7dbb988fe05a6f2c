-- ===== src/Tests.antt =====
-- The theorems at concrete inputs.
pub mod Data
pub mod Limits
pub mod Agents
pub mod Deliveries
pub mod Socks
pub mod Http
pub mod Channel
pub mod Pages
pub mod Tunnels
pub mod Rows
pub mod Tables
pub mod Operators
pub mod Users
pub mod Console
pub mod Agent
