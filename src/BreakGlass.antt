-- ===== src/BreakGlass.antt =====
-- omnidesk_agent/security/break_glass.py: time-boxed emergency access, over SQLite and over Postgres.
mod Rules
mod Sqlite
mod Stores
pub mod Changes
pub mod Openings
pub mod Steps
pub mod History
pub mod Granted
pub mod Revoked
pub mod Examples
unfoldable pub use Rules.*
unfoldable pub use Sqlite.*
unfoldable pub use Stores.*
