-- ===== src/Prompting.antt =====
-- Prompt sections cut to their budgets (iris/runtime/prompting/budget.py).
pub mod Types
pub mod Config
pub mod Toml
pub mod Parsing
pub mod Defaults
pub mod Render
pub mod Items
pub mod Section
pub mod Policy
pub mod Fits
pub mod Sizes
pub mod Sound
pub mod Entries
pub mod Totals
pub mod Order
pub mod Guarantees
pub mod Whole
pub mod Validated
pub mod Tests
