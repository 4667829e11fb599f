-- ===== src/Receipts/Join.antt =====
-- The join of receipts with the frames of the log (join.rs). The `BTreeMap` is an association list:
-- only its `entry(k).or_insert` and `get` are used.
use crust_core.Prelude.{
  ℕ, ◌+◌, ◌==◌, not, if◌then◌else◌, Bool, false, Option, none, some, is_some, List, [], ◌∷◌, length,
}
use crust_core.Types.Word.{TaskId, JobId, EventSeq}
use crust_core.Receipts.Chain.{ToolReceipt}

pub record FrameRef : Type 0 where
  pub seq : EventSeq
  pub tool_completed : Bool
  pub task_id : Option TaskId
  pub job_id : Option JobId

pub data JoinBreak : Type 0 where
  no_frame_at_seq not_a_tool_completion task_mismatch job_mismatch : JoinBreak

pub data JoinStatus : Type 0 where
  joined : ℕ → JoinStatus
  broken : ℕ → JoinBreak → JoinStatus

-- `BTreeMap::get`
unfoldable pub get : ℕ → List (ℕ × FrameRef) → Option FrameRef
get key [] = none
get key ((k, f) ∷ m) = if k == key then some f else get key m

-- `entry(key).or_insert(f)`
abbrev pub or_insert : ℕ → FrameRef → List (ℕ × FrameRef) → List (ℕ × FrameRef)
or_insert key f m = if is_some (get key m) then m else (key, f) ∷ m

-- The loop that fills `by_seq`.
unfoldable pub index_frames : List FrameRef → List (ℕ × FrameRef) → List (ℕ × FrameRef)
index_frames [] m = m
index_frames (f ∷ fs) m = index_frames fs (or_insert f.seq f m)

-- `frame.task_id != Some(r.task_id)`, negated
abbrev pub is_id : Option ℕ → ℕ → Bool
is_id none id = false
is_id (some x) id = x == id

-- The checks of one receipt, in order.
unfoldable pub check_receipt : ToolReceipt → Option FrameRef → Option JoinBreak
check_receipt r none = some JoinBreak.no_frame_at_seq
check_receipt r (some f) =
    if not f.tool_completed
    then some JoinBreak.not_a_tool_completion
    else if not (is_id f.task_id r.task_id)
    then some JoinBreak.task_mismatch
    else if not (is_id f.job_id r.job_id)
    then some JoinBreak.job_mismatch
    else none

abbrev pub on_check : ℕ → Option JoinBreak → JoinStatus → JoinStatus
on_check index none more = more
on_check index (some reason) more = JoinStatus.broken index reason

-- The loop over the receipts; `total` is `receipts.len()`.
unfoldable pub join_from : List (ℕ × FrameRef) → ℕ → ℕ → List ToolReceipt → JoinStatus
join_from by_seq total index [] = JoinStatus.joined total
join_from by_seq total index (r ∷ rs) =
    let more = join_from by_seq total (index + 1) rs in
    on_check index (check_receipt r (get r.event_seq by_seq)) more

-- `verify_against_log`
unfoldable pub verify_against_log : List ToolReceipt → List FrameRef → JoinStatus
verify_against_log receipts frames = join_from (index_frames frames []) (length receipts) 0 receipts
