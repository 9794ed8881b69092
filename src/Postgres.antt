-- ===== src/Postgres.antt =====
-- omnidesk_agent/repositories/postgres_state.py: the stores over one table of JSON rows.
pub mod State
pub mod Locked
pub mod Jobs
pub mod Outbound
pub mod Approvals
pub mod Examples
