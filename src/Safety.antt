-- ===== src/Safety.antt =====
-- The gates that an output passes before it is delivered (iris/safety).
pub mod Engine
pub mod Gate
pub mod Verdict
mod Tests
