-- ===== src/Session/Tests.antt =====
-- The theorems on sessions at a concrete log.
use crust_core.Prelude.{ℕ, ◌≡◌, ◌↔◌, ◌⊎◌, refl, none, some, List, [], ◌∷◌, arith}
use crust_core.Prelude.Bytes.{to_le, from_le, split}
use crust_core.Prelude.Text.{text_eq}
use crust_core.Types.Hash.{zeros}
use crust_core.Kernel.Event.{user_message_queued, task_killed, model_visible}
use crust_core.Eventlog.Codes.{find_byte}
use crust_core.Eventlog.Frame.{
  FrameMeta, new_meta, Decoded, encode_frame_prefix, read_id, decode_flags, read_code, decode_codes,
  decode_head, decode_tail, decode_body, decode_at,
}
use crust_core.Eventlog.Codec.{frame_bytes}
use crust_core.Eventlog.Log.{genesis_prev_hash, EventLog, new_log, iter_from, iter}
use crust_core.Eventlog.Sound.{IsChain}
use crust_core.Eventlog.Verified.{verify-IsChain}
use crust_core.Eventlog.Appends.{append_all, IsAppendable, chain_frames, verify-append_all}
use crust_core.Eventlog.Iterated.{iter-append_all}
use crust_core.Receipts.Joined.{AreAnchored}
use crust_core.Receipts.Tests.{receipt}
use crust_core.Eventlog.Tests.{log}
use crust_core.Session.View.{new_view, refs_of, selects, keep_frames, frames, greatest_seq}
use crust_core.Session.Resume.{resumed, resume}
use crust_core.Session.Resumed.{resume-IsChain}
use crust_core.Session.Lease.{CancellationState, unleased, derive_step, derive_from, derive}
use crust_core.Session.Leased.{NoGrant, LastGrant, derive-LastGrant}
use crust_core.Session.Snapshot.{user, turn_kind, Snapshot, snapshot, turns_of, derive_snapshot}
use crust_core.Session.Visible.{Renders, IsLatest, derive_snapshot-Renders}

resume-IsChain_example : (resume log 7 (receipt ∷ []) ≡ resumed (new_view log 7)) ↔ (
    (new_view log 7 ≡ new_view log 7)
    × ((ds : List Decoded) × (IsChain genesis_prev_hash none log.bytes ds)
        × AreAnchored (refs_of ds) (receipt ∷ [])))
resume-IsChain_example = resume-IsChain log 7 (receipt ∷ []) (new_view log 7)

-- A log whose one frame says that the task was killed.
abbrev killed_meta : FrameMeta
killed_meta = record (new_meta 1 task_killed) { task_id = some 7 }

abbrev killed_entries : List (FrameMeta × List ℕ)
killed_entries = (killed_meta, []) ∷ []

killed_entries-IsAppendable : IsAppendable none killed_entries
killed_entries-IsAppendable = (
  record {
    seq = omega arith;
    timestamp = omega arith;
    task_id = λ t e. ground arith;
    job_id = λ j e. ground arith;
  },
  omega arith,
  refl,
  tt,
)

abbrev killed_log : EventLog
killed_log = append_all killed_entries new_log

-- The lease view says that the run is killed, and it is resumed.
killed_cancellation : (derive (new_view killed_log 7)).cancellation ≡ CancellationState.killed
unfolding derive derive_from derive_step frames keep_frames selects chain_frames
killed_cancellation = rw (iter-append_all killed_entries killed_entries-IsAppendable) refl

killed_resumes : resume killed_log 7 [] ≡ resumed (new_view killed_log 7)
killed_resumes =
    let c =
      (verify-IsChain killed_log 1).0
        (verify-append_all killed_entries killed_entries-IsAppendable).0 in
    (resume-IsChain killed_log 7 [] (new_view killed_log 7)).1 (refl, (c.0, c.1, tt))

abbrev asked : FrameMeta
asked = record (new_meta 3 user_message_queued) { task_id = some 7; visibility = model_visible }

-- One frame, with a payload of three bytes.
abbrev short : EventLog
short = record {
  bytes = frame_bytes asked (zeros 32) (zeros 32) (102 ∷ 105 ∷ 120 ∷ []) (zeros 32);
  head_hash = zeros 32;
  count = 1;
}

-- A redactor that hides every payload.
abbrev hide : List ℕ → List ℕ
hide text = 42 ∷ []

abbrev hidden : Snapshot
hidden = record {
  session = 7;
  at_seq = 3;
  head_hash = zeros 32;
  turns = record { seq = 3; kind = user; text = 42 ∷ [] } ∷ [];
}

derived : derive_snapshot hide (new_view short 7) 3 ≡ snapshot hidden
unfolding derive_snapshot frames keep_frames selects iter iter_from decode_at decode_body
    decode_head decode_flags decode_codes read_code read_id decode_tail encode_frame_prefix split
    to_le from_le zeros greatest_seq turns_of turn_kind text_eq find_byte
derived = refl

derive_snapshot-Renders_example :
    Renders hide (new_view short 7) 3 (iter short.bytes) hidden.turns
    × IsLatest (new_view short 7) 3 3
    × (hidden.session ≡ 7)
    × (hidden.head_hash ≡ zeros 32)
derive_snapshot-Renders_example = derive_snapshot-Renders hide (new_view short 7) 3 hidden derived

derive-LastGrant_example :
    (NoGrant (frames (new_view short 7)) × ((derive (new_view short 7)).lease ≡ unleased))
    ⊎ LastGrant (frames (new_view short 7)) (derive (new_view short 7)).lease
derive-LastGrant_example = derive-LastGrant (new_view short 7)
