-- ===== src/Receipts.antt =====
-- Tool receipts (crates/crustcore-receipts/src/lib.rs and join.rs): a chain under a secret key, and
-- its join with the event log.
pub mod Chain
pub mod Join
pub mod Minted
pub mod Verified
pub mod Joined
pub mod Record
pub mod RoundTrip
pub mod Safe
pub mod Tests
