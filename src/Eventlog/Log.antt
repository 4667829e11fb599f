-- ===== src/Eventlog/Log.antt =====
-- The log: `append`, `walk` with `verify` and `verify_to_head`, `from_bytes` and `inspect`. The walk
-- runs on fuel, one for each byte; `unfinished` stands for fuel that has run out.
use crust_core.Prelude.{
  ℕ, zero, suc, ◌+◌, ◌-◌, ◌==◌, min, leb, not, if◌then◌else◌, Bool, true, false, Option, none, some,
  List, [], ◌∷◌, ◌++◌, length, take,
}
use crust_core.Prelude.Text.{text_eq}
use crust_core.Types.Word.{TaskId, EventSeq, u32_max}
use crust_core.Types.Hash.{sha256, zeros}
use crust_core.Kernel.Event.{EventKind, task_completed, task_failed, task_killed}
use crust_core.Eventlog.Parser.{BreakReason, Result, ok, err}
use crust_core.Eventlog.Frame.{FrameMeta, encode_frame_prefix, Decoded, decode_at}

-- `GENESIS_PREV_HASH`
abbrev pub genesis_prev_hash : List ℕ
genesis_prev_hash = zeros 32

pub data ChainStatus : Type 0 where
  intact : ℕ → ChainStatus
  broken : ℕ → BreakReason → ChainStatus
  unfinished : ChainStatus

-- `ChainStatus::is_intact`
abbrev pub is_intact : ChainStatus → Bool
is_intact (ChainStatus.intact n) = true
is_intact _ = false

pub record EventLog : Type 0 where
  pub bytes : List ℕ
  pub head_hash : List ℕ
  pub count : ℕ

-- `EventLog::new`
abbrev pub new_log : EventLog
new_log = record { bytes = []; head_hash = genesis_prev_hash; count = 0 }

-- The part of the payload that is written: `u32::try_from(len).unwrap_or(u32::MAX)` bytes.
abbrev pub written : List ℕ → List ℕ
written payload = take (min (length payload) u32_max) payload

-- The frame without its hash, that `append` builds.
abbrev pub unsealed : FrameMeta → List ℕ → List ℕ → List ℕ
unsealed m payload prev_hash =
    encode_frame_prefix m (min (length payload) u32_max) (sha256 (written payload)) prev_hash
    ++ written payload

-- `EventLog::append`, and the frame hash that it returns
unfoldable pub append : FrameMeta → List ℕ → EventLog → EventLog × List ℕ
append m payload log =
    let body = unsealed m payload log.head_hash in
    let frame_hash = sha256 body in
    (
      record {
        bytes = log.bytes ++ (body ++ frame_hash);
        head_hash = frame_hash;
        count = log.count + 1;
      },
      frame_hash,
    )

-- The frame up to its hash.
abbrev pub frame_body : List ℕ → Decoded → List ℕ
frame_body bytes d = take (length bytes - length d.after_payload) bytes

abbrev pub follows : Option ℕ → ℕ → Bool
follows none seq = true
follows (some prev_seq) seq = not (leb seq prev_seq)

-- The checks of `walk` on one decoded frame, in order.
unfoldable pub check_frame : List ℕ → List ℕ → Option ℕ → Decoded → Option BreakReason
check_frame bytes prev_hash last_seq d =
    if not (text_eq (sha256 d.payload) d.frame.payload_hash)
    then some BreakReason.payload_hash_mismatch
    else if not (text_eq (sha256 (frame_body bytes d)) d.frame.frame_hash)
    then some BreakReason.frame_hash_mismatch
    else if not (text_eq d.frame.prev_hash prev_hash)
    then some BreakReason.prev_hash_mismatch
    else if not (follows last_seq d.frame.meta.seq)
    then some BreakReason.non_monotonic_seq
    else none

abbrev pub Walked : Type 0
Walked = List Decoded × ChainStatus

abbrev pub prepend : Decoded → Walked → Walked
prepend d (frames, status) = (d ∷ frames, status)

abbrev pub on_checked : ℕ → Option BreakReason → Decoded → (Decoded → Walked) → Walked
on_checked index (some reason) d more = ([], ChainStatus.broken index reason)
on_checked index none d more = prepend d (more d)

-- The body of the loop, from the result of `decode_at`.
abbrev pub on_decoded :
    List ℕ → List ℕ → ℕ → Option ℕ → Result Decoded → (Decoded → Walked) → Walked
on_decoded bytes prev_hash index last_seq (err reason) more = ([], ChainStatus.broken index reason)
on_decoded bytes prev_hash index last_seq (ok d) more =
    on_checked index (check_frame bytes prev_hash last_seq d) d more

-- The loop of `EventLog::walk`.
unfoldable pub walk_from : ℕ → List ℕ → List ℕ → ℕ → Option ℕ → Walked
walk_from fuel [] prev_hash index last_seq = ([], ChainStatus.intact index)
walk_from zero (b ∷ bs) prev_hash index last_seq = ([], ChainStatus.unfinished)
walk_from (suc fuel) (b ∷ bs) prev_hash index last_seq =
    on_decoded (b ∷ bs) prev_hash index last_seq (decode_at (b ∷ bs))
      (λ d. walk_from fuel d.rest d.frame.frame_hash (suc index) (some d.frame.meta.seq))

-- `EventLog::walk`
unfoldable pub walk : EventLog → Walked
walk log = walk_from (length log.bytes) log.bytes genesis_prev_hash 0 none

-- `EventLog::verify`
unfoldable pub verify : EventLog → ChainStatus
verify log = (walk log).1

-- `frames.last().map_or(GENESIS_PREV_HASH, |(f, _)| f.frame_hash)`, begun with a hash
unfoldable pub last_hash : List ℕ → List Decoded → List ℕ
last_hash h [] = h
last_hash h (d ∷ ds) = last_hash d.frame.frame_hash ds

abbrev pub to_head : List ℕ → Walked → ChainStatus
to_head expected (frames, ChainStatus.intact n) =
    if text_eq (last_hash genesis_prev_hash frames) expected
    then ChainStatus.intact n
    else ChainStatus.broken n BreakReason.head_mismatch
to_head expected (frames, status) = status

-- `EventLog::verify_to_head`
unfoldable pub verify_to_head : List ℕ → EventLog → ChainStatus
verify_to_head expected log = to_head expected (walk log)

-- `FrameIter::next`, again and again: it stops at the first frame that does not decode.
abbrev pub on_iter : Result Decoded → (Decoded → List Decoded) → List Decoded
on_iter (err reason) more = []
on_iter (ok d) more = d ∷ more d

unfoldable pub iter_from : ℕ → List ℕ → List Decoded
iter_from fuel [] = []
iter_from zero (b ∷ bs) = []
iter_from (suc fuel) (b ∷ bs) = on_iter (decode_at (b ∷ bs)) (λ d. iter_from fuel d.rest)

-- `EventLog::iter`
unfoldable pub iter : List ℕ → List Decoded
iter bytes = iter_from (length bytes) bytes

-- `EventLog::from_bytes`
unfoldable pub from_bytes : List ℕ → EventLog
from_bytes bytes = record {
  bytes = bytes;
  head_hash = last_hash genesis_prev_hash (iter bytes);
  count = length (iter bytes);
}

pub record TaskSummary : Type 0 where
  pub task_id : TaskId
  pub frames : ℕ
  pub first_seq : EventSeq
  pub last_seq : EventSeq
  pub terminal : Option EventKind

-- `is_terminal_kind`, as the terminal event that the kind is
abbrev pub terminal_kind : EventKind → Option EventKind
terminal_kind task_completed = some task_completed
terminal_kind task_failed = some task_failed
terminal_kind task_killed = some task_killed
terminal_kind _ = none

abbrev pub or_else : Option EventKind → Option EventKind → Option EventKind
or_else none old = old
or_else (some k) old = some k

-- The `Some(t)` and `None` arms of `inspect` for the task of a frame.
unfoldable pub count_frame : TaskId → FrameMeta → List TaskSummary → List TaskSummary
count_frame tid m [] =
    record {
      task_id = tid;
      frames = 1;
      first_seq = m.seq;
      last_seq = m.seq;
      terminal = terminal_kind m.kind;
    }
    ∷ []
count_frame tid m (t ∷ ts) =
    if t.task_id == tid
    then record t {
      frames = t.frames + 1;
      last_seq = m.seq;
      terminal = or_else (terminal_kind m.kind) t.terminal;
    }
      ∷ ts
    else t ∷ count_frame tid m ts

abbrev pub count_task : Option TaskId → FrameMeta → List TaskSummary → List TaskSummary
count_task none m ts = ts
count_task (some tid) m ts = count_frame tid m ts

unfoldable pub summarize : List Decoded → List TaskSummary → List TaskSummary
summarize [] ts = ts
summarize (d ∷ ds) ts = summarize ds (count_task d.frame.meta.task_id d.frame.meta ts)

pub record InspectReport : Type 0 where
  pub status : ChainStatus
  pub total_frames : ℕ
  pub tasks : List TaskSummary

-- `EventLog::inspect`
unfoldable pub inspect : EventLog → InspectReport
inspect log = record {
  status = (walk log).1;
  total_frames = length (walk log).0;
  tasks = summarize (walk log).0 [];
}
