-- ===== src/Session/View.antt =====
-- The views of a session (view.rs, and `list` of service.rs). A view borrows the log: it holds it
-- here. A `SessionId` (id.rs) is its task.
use crust_core.Prelude.{
  ℕ, ◌&&◌, leb, max, if◌then◌else◌, Bool, true, false, Option, none, some, List, [], ◌∷◌, length,
}
use crust_core.Types.Word.{TaskId, JobId, EventSeq}
use crust_core.Kernel.Event.{EventKind}
use crust_core.Eventlog.Frame.{EventFrame, Decoded}
use crust_core.Eventlog.Log.{EventLog, iter}
use crust_core.Receipts.Join.{FrameRef, is_id}

abbrev pub SessionId : Type 0
SessionId = TaskId

pub record SeqRange : Type 0 where
  pub start : Option EventSeq
  pub end : Option EventSeq

-- `SeqRange::all`
abbrev pub all_seqs : SeqRange
all_seqs = record { start = none; end = none }

-- `SeqRange::up_to`
abbrev pub up_to : EventSeq → SeqRange
up_to seq = record { start = none; end = some seq }

abbrev pub at_least : Option EventSeq → EventSeq → Bool
at_least none seq = true
at_least (some s) seq = leb s seq

abbrev pub at_most : Option EventSeq → EventSeq → Bool
at_most none seq = true
at_most (some e) seq = leb seq e

-- `SeqRange::contains`
abbrev pub contains : SeqRange → EventSeq → Bool
contains range seq = at_least range.start seq && at_most range.end seq

pub record SessionView : Type 0 where
  pub log : EventLog
  pub session : SessionId
  pub job : Option JobId
  pub range : SeqRange

-- `SessionView::new`
abbrev pub new_view : EventLog → SessionId → SessionView
new_view log session = record { log = log; session = session; job = none; range = all_seqs }

-- `SessionView::with_range`
abbrev pub with_range : SeqRange → SessionView → SessionView
with_range range v = record v { range = range }

-- `SessionView::with_job`
abbrev pub with_job : JobId → SessionView → SessionView
with_job job v = record v { job = some job }

abbrev pub in_job : Option JobId → Option JobId → Bool
in_job none frame_job = true
in_job (some j) frame_job = is_id frame_job j

-- `SessionView::selects`
unfoldable pub selects : SessionView → EventFrame → Bool
selects v f =
    is_id f.meta.task_id v.session && in_job v.job f.meta.job_id && contains v.range f.meta.seq

unfoldable pub keep_frames : (EventFrame → Bool) → List Decoded → List Decoded
keep_frames p [] = []
keep_frames p (d ∷ ds) = let more = keep_frames p ds in if p d.frame then d ∷ more else more

-- `SessionView::frames`
unfoldable pub frames : SessionView → List Decoded
frames v = keep_frames (selects v) (iter v.log.bytes)

-- `SessionView::frame_count`
unfoldable pub frame_count : SessionView → ℕ
frame_count v = length (frames v)

unfoldable pub greatest_seq : List Decoded → Option EventSeq → Option EventSeq
greatest_seq [] found = found
greatest_seq (d ∷ ds) none = greatest_seq ds (some d.frame.meta.seq)
greatest_seq (d ∷ ds) (some m) = greatest_seq ds (some (max m d.frame.meta.seq))

-- `SessionView::head_seq`
unfoldable pub head_seq : SessionView → Option EventSeq
head_seq v = greatest_seq (frames v) none

abbrev pub is_tool_completed : EventKind → Bool
is_tool_completed EventKind.tool_call_completed = true
is_tool_completed _ = false

unfoldable pub refs_of : List Decoded → List FrameRef
refs_of [] = []
refs_of (d ∷ ds) =
    record {
      seq = d.frame.meta.seq;
      tool_completed = is_tool_completed d.frame.meta.kind;
      task_id = d.frame.meta.task_id;
      job_id = d.frame.meta.job_id;
    }
    ∷ refs_of ds

-- `frame_refs`
unfoldable pub frame_refs : EventLog → List FrameRef
frame_refs log = refs_of (iter log.bytes)

-- `is_turn_kind`
unfoldable pub is_turn_kind : EventKind → Bool
is_turn_kind EventKind.user_message_queued = true
is_turn_kind EventKind.user_steer_received = true
is_turn_kind EventKind.model_output_received = true
is_turn_kind EventKind.tool_call_completed = true
is_turn_kind _ = false

-- `ConversationView::turns`
unfoldable pub turns : SessionView → List Decoded
turns v = keep_frames (λ f. is_turn_kind f.meta.kind) (frames v)
