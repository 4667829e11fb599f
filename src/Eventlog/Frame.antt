-- ===== src/Eventlog/Frame.antt =====
-- One frame of the log: its encoding (`encode_frame_prefix`) and its decoding (`decode_at`). The
-- offset of the source is represented by the bytes from it on.
use Prim.Native.Nat.{bit_and}
use crust_core.Prelude.{ℕ, ◌==◌, Bool, true, false, Option, none, some, List, [], ◌∷◌, ◌++◌}
use crust_core.Prelude.Bytes.{to_le, from_le}
use crust_core.Prelude.Text.{text_eq}
use crust_core.Types.Word.{EventSeq, TaskId, JobId, Timestamp, epoch}
use crust_core.Kernel.Event.{EventKind, Actor, Visibility, kernel, internal_only}
use crust_core.Eventlog.Parser.{
  bad_magic, bad_version, bad_discriminant, Result, ok, err, Parser, ◌>>=◌, ok_or, lift, require,
  read, read_byte,
}
use crust_core.Eventlog.Codes.{
  RedactionState, redaction_to_byte, redaction_from_byte, visibility_to_byte, visibility_from_byte,
  actor_byte, actor_from_byte, kind_byte, kind_from_byte,
}

-- `FRAME_MAGIC`, the text CCEL
abbrev pub frame_magic : List ℕ
frame_magic = 67 ∷ 67 ∷ 69 ∷ 76 ∷ []

-- `FRAME_VERSION`
abbrev pub frame_version : ℕ
frame_version = 1

pub record FrameMeta : Type 0 where
  pub seq : EventSeq
  pub timestamp : Timestamp
  pub task_id : Option TaskId
  pub job_id : Option JobId
  pub actor : Actor
  pub kind : EventKind
  pub visibility : Visibility
  pub redaction : RedactionState

-- `FrameMeta::new`
abbrev pub new_meta : ℕ → EventKind → FrameMeta
new_meta seq kind = record {
  seq = seq;
  timestamp = epoch;
  task_id = none;
  job_id = none;
  actor = kernel;
  kind = kind;
  visibility = internal_only;
  redaction = RedactionState.clean;
}

-- `EventFrame`: the header, and the three hashes
pub record EventFrame : Type 0 where
  pub meta : FrameMeta
  pub payload_hash : List ℕ
  pub prev_hash : List ℕ
  pub frame_hash : List ℕ

-- `FLAG_HAS_TASK` and `FLAG_HAS_JOB`, joined by `|`
abbrev pub flags_of : Option TaskId → Option JobId → ℕ
flags_of none none = 0
flags_of (some _) none = 1
flags_of none (some _) = 2
flags_of (some _) (some _) = 3

-- `to_le_bytes` of an identifier that is there
abbrev pub id_bytes : Option ℕ → List ℕ
id_bytes none = []
id_bytes (some n) = to_le 16 n

-- `encode_frame_prefix`
unfoldable pub encode_frame_prefix : FrameMeta → ℕ → List ℕ → List ℕ → List ℕ
encode_frame_prefix m payload_len payload_hash prev_hash =
    frame_magic
    ++ (to_le 2 frame_version
        ++ (flags_of m.task_id m.job_id
            ∷ actor_byte m.actor
            ∷ kind_byte m.kind
            ∷ visibility_to_byte m.visibility
            ∷ redaction_to_byte m.redaction
            ∷ (to_le 8 m.seq
                ++ (to_le 8 m.timestamp
                    ++ (id_bytes m.task_id
                        ++ (id_bytes m.job_id
                            ++ (to_le 4 payload_len ++ (payload_hash ++ prev_hash))))))))

-- The contents of a frame without its own hash.
pub record Body : Type 0 where
  pub meta : FrameMeta
  pub payload_hash : List ℕ
  pub prev_hash : List ℕ
  pub payload : List ℕ

-- `Decoded`: `rest` stands for `next_offset`, and `after_payload`, the bytes from the frame hash on,
-- for `frame_hash_offset`
pub record Decoded : Type 0 where
  pub frame : EventFrame
  pub payload : List ℕ
  pub after_payload : List ℕ
  pub rest : List ℕ

-- An identifier of 16 bytes, if its flag is set.
unfoldable pub read_id : Bool → Parser (Option ℕ)
read_id false = lift (ok none)
read_id true = do raw ← read 16; lift (ok (some (from_le raw)))

-- The first part of `decode_at`: the magic text, the version and the flags.
unfoldable pub decode_flags : Parser ℕ
decode_flags = do
  magic ← read 4
  _ ← require (text_eq magic frame_magic) bad_magic
  version ← read 2
  _ ← require (from_le version == frame_version) bad_version
  flags ← read_byte
  _ ← require (bit_and flags 252 == 0) bad_discriminant
  lift (ok flags)

-- A byte that stands for a value, `ok_or(BadDiscriminant)?`.
unfoldable pub read_code : {A : Type 0} → (ℕ → Option A) → Parser A
read_code code = do b ← read_byte; lift (ok_or bad_discriminant (code b))

-- The second part: the codes, the sequence number and the timestamp.
unfoldable pub decode_codes : ℕ → Parser (FrameMeta × ℕ)
decode_codes flags = do
  actor ← read_code actor_from_byte
  kind ← read_code kind_from_byte
  visibility ← read_code visibility_from_byte
  redaction ← read_code redaction_from_byte
  seq ← read 8
  timestamp ← read 8
  lift (
      ok (
        record {
          seq = from_le seq;
          timestamp = from_le timestamp;
          task_id = none;
          job_id = none;
          actor = actor;
          kind = kind;
          visibility = visibility;
          redaction = redaction;
        },
        flags,
      ))

-- The header up to the timestamp, and the flags, still open.
unfoldable pub decode_head : Parser (FrameMeta × ℕ)
decode_head = do flags ← decode_flags; decode_codes flags

-- The third part: the identifiers, the payload's length, the hashes and the payload.
unfoldable pub decode_tail : FrameMeta × ℕ → Parser Body
decode_tail (meta, flags) = do
  task_id ← read_id (bit_and flags 1 == 1)
  job_id ← read_id (bit_and flags 2 == 2)
  payload_len ← read 4
  payload_hash ← read 32
  prev_hash ← read 32
  payload ← read (from_le payload_len)
  lift (
      ok record {
        meta = record meta { task_id = task_id; job_id = job_id };
        payload_hash = payload_hash;
        prev_hash = prev_hash;
        payload = payload;
      })

unfoldable pub decode_body : Parser Body
decode_body = do head ← decode_head; decode_tail head

-- The end of `decode_at`: the frame hash.
abbrev pub with_hash : Body → List ℕ → Result (List ℕ × List ℕ) → Result Decoded
with_hash body after (ok (frame_hash, rest)) = ok record {
  frame = record {
    meta = body.meta;
    payload_hash = body.payload_hash;
    prev_hash = body.prev_hash;
    frame_hash = frame_hash;
  };
  payload = body.payload;
  after_payload = after;
  rest = rest;
}
with_hash body after (err reason) = err reason

abbrev pub on_body : Result (Body × List ℕ) → Result Decoded
on_body (ok (body, after)) = with_hash body after (read 32 after)
on_body (err reason) = err reason

-- `decode_at`
unfoldable pub decode_at : List ℕ → Result Decoded
decode_at bytes = on_body (decode_body bytes)
