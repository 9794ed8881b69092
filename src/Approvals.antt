-- ===== src/Approvals.antt =====
-- omnidesk_agent/security/approval_store.py and dual_approval.py: approvals and their two-person gate.
mod Requests
mod Dual
mod Store
mod Decisions
mod Examples
pub mod Separation
pub mod Invariant
pub mod Creation
pub mod History
pub mod Gate
pub mod Critical
pub mod Transitions
pub mod Refusals
pub mod Uses
unfoldable pub use Requests.*
unfoldable pub use Dual.*
unfoldable pub use Store.*
unfoldable pub use Decisions.*
