-- ===== src/Permissions.antt =====
-- omnidesk_agent/security/permissions.py: which proposed actions may run.
mod Defs
mod Examples
pub mod Grounds
pub mod Sessions
pub mod Requests
unfoldable pub use Defs.*
