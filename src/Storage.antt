-- ===== src/Storage.antt =====
-- internal/storage/storage.go: the SQLite database as its tables, in the children a module for
-- each group of methods of `Store`. A method is an action that reads and writes the tables and may
-- fail; the clock is an argument of it.
pub mod Rows
pub mod Query
pub mod Unique
pub mod Admins
pub mod Sessions
pub mod Clients
pub mod Users
pub mod Metrics
pub mod Events
pub mod Retention
pub mod Migrations
