-- ===== src/Jobs.antt =====
-- server/jobs.py: the `jobs` and `job_events` tables of the catalog, and what JobManager and
-- JobWorker write to them. One transaction is one function. Instants stand for their texts.
pub mod Store
pub mod Manager
pub mod Worker
pub mod Steps
pub mod Rows
pub mod Numbers
pub mod Polling
pub mod Claims
pub mod Cancels
pub mod Lifecycle
pub mod Reclaim
mod Tests
