-- ===== src/Server/Gui.antt =====
-- internal/server/gui: the handlers behind the pages.
pub mod View
pub mod Sessions
pub mod Visits
pub mod Csrf
pub mod Logs
pub mod TokenLogs
pub mod Dashboard
pub mod Limits
pub mod Routes
pub mod Router
pub mod Clients
pub mod Access
pub mod Targets
pub mod Stream
