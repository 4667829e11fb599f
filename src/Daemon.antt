-- ===== src/Daemon.antt =====
-- The decisions of the daemon (crates/crustcore-daemon/src): where a task runs, and whether its
-- result may be integrated.
pub mod Task
pub mod Router
pub mod Review
pub mod TaskLoop
pub mod Agents
pub mod Webhook
pub mod Replay
pub mod Remembered
pub mod Inbound
pub mod Routed
pub mod Gated
pub mod Integrated
pub mod Tests
