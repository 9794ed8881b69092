-- ===== src/Resume.antt =====
-- omnidesk_agent/core/orchestrator.py: the resume of a run after its approval.
mod Defs
mod Examples
pub mod Granted
unfoldable pub use Defs.*
