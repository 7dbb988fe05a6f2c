-- ===== src/Command.antt =====
-- cmd/proxywi-server: what the command does to the admins, and where it sends a request.
pub mod AdminSet
pub mod Bootstrap
