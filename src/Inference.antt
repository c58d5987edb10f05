-- ===== src/Inference.antt =====
-- iris/runtime/inference: the leases of the local inference resource.
pub mod Models
pub mod Scheduler
pub mod Leases
pub mod Freed
pub mod Limits
pub mod Preemption
pub mod Busy
pub mod Runs
mod Tests
