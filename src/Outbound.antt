-- ===== src/Outbound.antt =====
-- omnidesk_agent/core/outbound_messages.py and outbound_dispatcher.py: messages that wait for their
-- channel, and the worker that sends them.
mod Defs
mod Marks
pub mod Provider
pub mod Options
pub mod Dispatch
pub mod Invariant
pub mod History
pub mod Parked
pub mod Finality
mod Readings
pub mod Outcomes
pub mod Keys
mod Examples
unfoldable pub use Defs.*
unfoldable pub use Marks.*
