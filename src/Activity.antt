-- ===== src/Activity.antt =====
-- The activity of actors and apps as the runtime projects it (iris/runtime/state/interaction_activity.py).
pub mod Types
pub mod Store
pub mod Events
pub mod Integrator
pub mod Ordering
pub mod Latest
pub mod Registers
pub mod Active
pub mod Tests
