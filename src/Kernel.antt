-- ===== src/Kernel.antt =====
-- The kernel state machine (crates/crustcore-kernel). The definitions come first, each file with
-- the part of the source that it models; the modules after them prove.
pub mod Event
pub mod State
pub mod Tables
pub mod Jobs
pub mod Approvals
pub mod Step
pub mod Tasks
pub mod Pending
pub mod Authority
pub mod Counters
pub mod Sequence
pub mod Resume
mod Tests
