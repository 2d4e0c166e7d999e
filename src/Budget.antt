-- ===== src/Budget.antt =====
-- The budget vocabulary (crates/core/core/src/budget.rs) and the task ledger
-- (crates/core/budget/src).
pub mod Amounts
pub mod Vocabulary
pub mod Audit
pub mod Ledger
pub mod Invariant
pub mod Checkpoint
pub mod Equality
pub mod Guarantees
