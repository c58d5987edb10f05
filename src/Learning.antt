-- ===== src/Learning.antt =====
-- iris/runtime/learning: the background jobs, the pressure policy and the in-memory queue. The
-- payload of a job is a parameter: the queue stores it and never reads it.
pub mod Jobs
pub mod Policy
pub mod Records
pub mod Queue
pub mod Lease
pub mod Metrics
pub mod Totals
pub mod Updates
pub mod Runner
pub mod Concurrency
pub mod Taking
pub mod Valid
pub mod Runs
pub mod Pressure
pub mod Retries
pub mod Settling
pub mod Stepping
pub mod Batch
pub mod Calm
mod Tests
mod BatchTests
