-- ===== src/Types.antt =====
-- The shared vocabulary of crates/crustcore-types: machine words, statuses, budgets.
pub mod Word
pub mod Status
pub mod Budget
pub mod Hash
