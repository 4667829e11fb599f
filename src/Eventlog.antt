-- ===== src/Eventlog.antt =====
-- The append-only event log (crates/crustcore-eventlog/src/lib.rs): frames chained by SHA-256.
pub mod Codes
pub mod Parser
pub mod Frame
pub mod Codec
pub mod Log
pub mod Appends
pub mod Local
pub mod Sound
pub mod Verified
pub mod Binding
pub mod Iterated
pub mod Tests
