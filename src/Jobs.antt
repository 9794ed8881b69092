-- ===== src/Jobs.antt =====
-- omnidesk_agent/core/job_queue.py: the queue of webhook jobs, one function per method.
-- `now` is `time.time()`, a job's id is `str(uuid.uuid4())`. The metrics calls are left out.
pub mod Invariant
pub mod History
pub mod Claims
pub mod Failures
pub mod Recovery
pub mod Recovered
pub mod Dedupe
mod Examples
mod Defs
mod Admin
unfoldable pub use Defs.*
unfoldable pub use Admin.*
