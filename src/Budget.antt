-- ===== src/Budget.antt =====
-- The model call budgets: iris/runtime/config/model_call_budget.py and iris/runtime/model_call_budget.py.
pub mod Config
pub mod Gate
pub mod Bounds
mod Tests
