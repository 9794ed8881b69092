-- ===== src/Runs.antt =====
-- omnidesk_agent/core/run_store.py: runs that wait for an approval and are resumed once.
mod Defs
mod Examples
pub mod History
pub mod Resume
pub mod Waiting
unfoldable pub use Defs.*
