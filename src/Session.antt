-- ===== src/Session.antt =====
-- Sessions (crates/crustcore-session/src): read-only views of the event log, and the checks before a
-- run is resumed.
pub mod View
pub mod Resume
pub mod Lease
pub mod Snapshot
pub mod Resumed
pub mod Leased
pub mod Selected
pub mod Visible
pub mod Tests
