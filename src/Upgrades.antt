-- ===== src/Upgrades.antt =====
-- omnidesk_agent/self_upgrade/state_machine.py: the governed states of a self-upgrade.
mod Defs
pub mod Paths
pub mod History
mod Examples
unfoldable pub use Defs.*
