-- ===== src/Budget.antt =====
-- omnidesk_agent/core/token_budget.py: the guardrail of calls of language models.
mod Trim
mod Defs
unfoldable pub use Trim.*
unfoldable pub use Defs.*
pub mod Trimmed
pub mod Calls
pub mod Examples
