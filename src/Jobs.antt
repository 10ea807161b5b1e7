-- ===== src/Jobs.antt =====
-- Background jobs: exclusive ownership of a name, heartbeats, and what the status page reads.
-- `feeds/jobs.py` and `JobRun` of `feeds/models.py`. Times count microseconds.
pub mod Row
pub mod Ownership
pub mod Health
mod Examples
