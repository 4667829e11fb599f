-- ===== src/Session/Snapshot.antt =====
-- Snapshots of a session (snapshot.rs). Decoding a payload as text and redacting it are one
-- function, a parameter.
use crust_core.Prelude.{ℕ, Bool, Option, none, some, List, [], ◌∷◌}
use crust_core.Types.Word.{EventSeq}
use crust_core.Kernel.Event.{EventKind, Visibility, model_visible, internal_only}
use crust_core.Eventlog.Frame.{Decoded}
use crust_core.Eventlog.Log.{EventLog, verify_to_head, is_intact}
use crust_core.Session.View.{SessionId, SessionView, up_to, with_range, frames, greatest_seq}

pub data TurnKind : Type 0 where
  user model tool : TurnKind

-- `TurnKind::from_event`
unfoldable pub turn_kind : EventKind → Option TurnKind
turn_kind EventKind.user_message_queued = some user
turn_kind EventKind.user_steer_received = some user
turn_kind EventKind.model_output_received = some model
turn_kind EventKind.tool_call_completed = some tool
turn_kind _ = none

-- `Turn`, whose artifacts a snapshot leaves empty
pub record Turn : Type 0 where
  pub seq : EventSeq
  pub kind : TurnKind
  pub text : List ℕ

pub record Snapshot : Type 0 where
  pub session : SessionId
  pub at_seq : EventSeq
  pub head_hash : List ℕ
  pub turns : List Turn

-- `Result<Snapshot, SnapshotError>`
pub data Derived : Type 0 where
  snapshot : Snapshot → Derived
  no_frames_at_or_below : EventSeq → Derived

abbrev pub add_turn :
    (List ℕ → List ℕ) → Decoded → Visibility → Option TurnKind → List Turn → List Turn
add_turn redact d internal_only kind more = more
add_turn redact d model_visible none more = more
add_turn redact d model_visible (some kind) more =
    record { seq = d.frame.meta.seq; kind = kind; text = redact d.payload } ∷ more

-- The turns that the loop of `Snapshot::derive` pushes.
unfoldable pub turns_of : (List ℕ → List ℕ) → List Decoded → List Turn
turns_of redact [] = []
turns_of redact (d ∷ ds) =
    add_turn redact d d.frame.meta.visibility (turn_kind d.frame.meta.kind) (turns_of redact ds)

abbrev pub at_greatest :
    (List ℕ → List ℕ) → SessionView → EventSeq → List Decoded → Option EventSeq → Derived
at_greatest redact v at_seq ds none = no_frames_at_or_below at_seq
at_greatest redact v at_seq ds (some at) = snapshot record {
  session = v.session;
  at_seq = at;
  head_hash = v.log.head_hash;
  turns = turns_of redact ds;
}

-- `Snapshot::derive`
unfoldable pub derive_snapshot : (List ℕ → List ℕ) → SessionView → EventSeq → Derived
derive_snapshot redact v at_seq =
    let ds = frames (with_range (up_to at_seq) v) in
    at_greatest redact v at_seq ds (greatest_seq ds none)

-- `Snapshot::verify_against`
unfoldable pub verify_against : EventLog → Snapshot → Bool
verify_against log s = is_intact (verify_to_head s.head_hash log)
