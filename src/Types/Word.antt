-- ===== src/Types/Word.antt =====
-- Machine words. An identifier newtype (crates/crustcore-types/src/ids.rs) and a timestamp
-- (time.rs) are the numbers that they wrap.
use crust_core.Prelude.{ℕ, ◌+◌, min}

abbrev pub u32_max : ℕ
u32_max = 4294967295

-- `u32::saturating_add`
abbrev pub saturating_add_u32 : ℕ → ℕ → ℕ
saturating_add_u32 a b = min (a + b) u32_max

abbrev pub u64_max : ℕ
u64_max = 18446744073709551615

abbrev pub u128_max : ℕ
u128_max = 340282366920938463463374607431768211455

-- `u64::saturating_add`
abbrev pub saturating_add : ℕ → ℕ → ℕ
saturating_add a b = min (a + b) u64_max

-- `u128::saturating_add`
abbrev pub saturating_add_u128 : ℕ → ℕ → ℕ
saturating_add_u128 a b = min (a + b) u128_max

abbrev pub TaskId : Type 0
TaskId = ℕ

abbrev pub JobId : Type 0
JobId = ℕ

abbrev pub EventSeq : Type 0
EventSeq = ℕ

abbrev pub ApprovalId : Type 0
ApprovalId = ℕ

abbrev pub ToolCallId : Type 0
ToolCallId = ℕ

abbrev pub LeaseOwner : Type 0
LeaseOwner = ℕ

abbrev pub Timestamp : Type 0
Timestamp = ℕ

-- `EventSeq::FIRST`
abbrev pub first : EventSeq
first = 0

-- `Timestamp::EPOCH`
abbrev pub epoch : Timestamp
epoch = 0

-- `EventSeq::next_saturating`
abbrev pub next_saturating : EventSeq → EventSeq
next_saturating s = saturating_add s 1
