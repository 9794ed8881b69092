-- ===== src/Webhooks.antt =====
-- omnidesk_agent/security/webhook_security.py: replays and rates of webhooks, over SQLite and Postgres.
mod Sqlite
mod Stores
unfoldable pub use Sqlite.*
unfoldable pub use Stores.*
pub mod Replays
pub mod Attempts
pub mod History
mod Counts
pub mod Rates
pub mod Examples
