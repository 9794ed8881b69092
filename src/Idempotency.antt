-- ===== src/Idempotency.antt =====
-- omnidesk_agent/security/idempotency.py and agent_run_idempotency.py: repeated requests are answered once.
mod Defs
mod JsonState
mod Examples
pub mod Backends
pub mod History
pub mod Rows
pub mod Once
pub mod Replies
unfoldable pub use Defs.*
unfoldable pub use JsonState.*
