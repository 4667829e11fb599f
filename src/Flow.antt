-- ===== src/Flow.antt =====
-- The flow engine (crates/crustcore-flow): a deterministic scheduler over a graph of nodes.
pub mod Budget
pub mod State
pub mod Graph
pub mod Drivers
pub mod Engine
pub mod Closed
pub mod Contract
pub mod Totals
pub mod Outputs
pub mod Authority
mod Tests
