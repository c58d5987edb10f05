-- ===== src/Review.antt =====
-- The store of candidates for review (iris/runtime/state/memory_candidates.py).
pub mod Store
pub mod Filter
pub mod Valid
pub mod Listing
mod Tests
