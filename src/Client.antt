-- ===== src/Client.antt =====
-- The agent: internal/client/client.go, with the loop around it in cmd/proxywi-client/main.go.
pub mod Metrics
pub mod Backoff
pub mod Acl
pub mod Streams
pub mod Session
