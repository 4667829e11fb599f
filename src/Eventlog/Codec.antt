-- ===== src/Eventlog/Codec.antt =====
-- Decoding what was encoded gives it back, with whatever follows it.
use Prim.Native.Nat.{bit_and}
use mathlib.Core.List.{append_assoc}
use crust_core.Prelude.{
  ℕ, ◌^◌, ◌<◌, ◌==◌, ◌≡◌, refl, Option, none, some, List, ◌∷◌, ◌++◌, length, is_some, arith,
}
use crust_core.Prelude.Bytes.{to_le, length-to_le, from_le-to_le, split-append_of}
use crust_core.Prelude.Text.{text_eq}
use crust_core.Eventlog.Codes.{
  actor_byte, kind_byte, visibility_to_byte, redaction_to_byte, actor_from_byte-actor_byte,
  kind_from_byte-kind_byte, visibility_from_byte-visibility_to_byte,
  redaction_from_byte-redaction_to_byte,
}
use crust_core.Eventlog.Parser.{ok}
use crust_core.Eventlog.Frame.{
  frame_magic, FrameMeta, flags_of, id_bytes, encode_frame_prefix, read_id, read_code, decode_flags,
  decode_codes, decode_head, decode_tail, decode_body, decode_at,
}

-- The numbers of the header fit their fields.
pub record FitsMeta (m : FrameMeta) : Type 0 where
  pub seq : m.seq < 256 ^ 8
  pub timestamp : m.timestamp < 256 ^ 8
  pub task_id : (t : ℕ) → m.task_id ≡ some t → t < 256 ^ 16
  pub job_id : (j : ℕ) → m.job_id ≡ some j → j < 256 ^ 16

flags_of-high : (t j : Option ℕ) → bit_and (flags_of t j) 252 ≡ 0
flags_of-high none none = refl
flags_of-high (some x) none = refl
flags_of-high none (some y) = refl
flags_of-high (some x) (some y) = refl

flags_of-task : (t j : Option ℕ) → (bit_and (flags_of t j) 1 == 1) ≡ is_some t
flags_of-task none none = refl
flags_of-task (some x) none = refl
flags_of-task none (some y) = refl
flags_of-task (some x) (some y) = refl

flags_of-job : (t j : Option ℕ) → (bit_and (flags_of t j) 2 == 2) ≡ is_some j
flags_of-job none none = refl
flags_of-job (some x) none = refl
flags_of-job none (some y) = refl
flags_of-job (some x) (some y) = refl

read_id-id_bytes :
    (o : Option ℕ) (rest : List ℕ)
    → ((n : ℕ) → o ≡ some n → n < 256 ^ 16)
    → read_id (is_some o) (id_bytes o ++ rest) ≡ ok (o, rest)
unfolding read_id
read_id-id_bytes none rest h = refl
read_id-id_bytes (some n) rest h =
    rw (split-append_of 16 (to_le 16 n) rest (length-to_le 16 n), from_le-to_le 16 n (h n refl))
      refl

-- What follows the timestamp in a frame.
abbrev body_tail : FrameMeta → ℕ → List ℕ → List ℕ → List ℕ → List ℕ
body_tail m len payload_hash prev_hash tail =
    id_bytes m.task_id
    ++ (id_bytes m.job_id ++ (to_le 4 len ++ (payload_hash ++ (prev_hash ++ tail))))

abbrev without_ids : FrameMeta → FrameMeta
without_ids m = record m { task_id = none; job_id = none }

encode-append :
    (m : FrameMeta) (len : ℕ) (ph prev tail : List ℕ)
    → encode_frame_prefix m len ph prev ++ tail
      ≡ frame_magic
        ++ (to_le 2 1
            ++ (flags_of m.task_id m.job_id
                ∷ actor_byte m.actor
                ∷ kind_byte m.kind
                ∷ visibility_to_byte m.visibility
                ∷ redaction_to_byte m.redaction
                ∷ (to_le 8 m.seq ++ (to_le 8 m.timestamp ++ body_tail m len ph prev tail))))
unfolding encode_frame_prefix
encode-append m len ph prev tail = simp append_assoc

decode_head-encode :
    (m : FrameMeta) (len : ℕ) (ph prev tail : List ℕ)
    → FitsMeta m
    → decode_head (encode_frame_prefix m len ph prev ++ tail)
      ≡ ok ((without_ids m, flags_of m.task_id m.job_id), body_tail m len ph prev tail)
unfolding decode_head decode_flags decode_codes read_code text_eq
decode_head-encode m len ph prev tail h =
    let rest = body_tail m len ph prev tail in
    let after_magic =
      to_le 2 1
      ++ (flags_of m.task_id m.job_id
          ∷ actor_byte m.actor
          ∷ kind_byte m.kind
          ∷ visibility_to_byte m.visibility
          ∷ redaction_to_byte m.redaction
          ∷ (to_le 8 m.seq ++ (to_le 8 m.timestamp ++ rest))) in
    let after_version =
      flags_of m.task_id m.job_id
      ∷ actor_byte m.actor
      ∷ kind_byte m.kind
      ∷ visibility_to_byte m.visibility
      ∷ redaction_to_byte m.redaction
      ∷ (to_le 8 m.seq ++ (to_le 8 m.timestamp ++ rest)) in
    rw
      (
        encode-append m len ph prev tail,
        split-append_of 4 frame_magic after_magic refl,
        split-append_of 2 (to_le 2 1) after_version (length-to_le 2 1),
        from_le-to_le 2 1 (omega arith),
        flags_of-high m.task_id m.job_id,
        actor_from_byte-actor_byte m.actor,
        kind_from_byte-kind_byte m.kind,
        visibility_from_byte-visibility_to_byte m.visibility,
        redaction_from_byte-redaction_to_byte m.redaction,
        split-append_of 8 (to_le 8 m.seq) (to_le 8 m.timestamp ++ rest) (length-to_le 8 m.seq),
        from_le-to_le 8 m.seq h.seq,
        split-append_of 8 (to_le 8 m.timestamp) rest (length-to_le 8 m.timestamp),
        from_le-to_le 8 m.timestamp h.timestamp,
      )
      refl

decode_tail-encode :
    (m : FrameMeta) (len : ℕ) (ph prev payload rest : List ℕ)
    → FitsMeta m
    → len < 256 ^ 4
    → length ph ≡ 32
    → length prev ≡ 32
    → length payload ≡ len
    → decode_tail
        (without_ids m, flags_of m.task_id m.job_id)
        (body_tail m len ph prev (payload ++ rest))
      ≡ ok (record { meta = m; payload_hash = ph; prev_hash = prev; payload = payload }, rest)
unfolding decode_tail
decode_tail-encode m len ph prev payload rest h hl e1 e2 e3 =
    rw
      (
        flags_of-task m.task_id m.job_id,
        flags_of-job m.task_id m.job_id,
        read_id-id_bytes m.task_id
            (id_bytes m.job_id ++ (to_le 4 len ++ (ph ++ (prev ++ (payload ++ rest))))) h.task_id,
        read_id-id_bytes m.job_id (to_le 4 len ++ (ph ++ (prev ++ (payload ++ rest)))) h.job_id,
        split-append_of 4 (to_le 4 len) (ph ++ (prev ++ (payload ++ rest))) (length-to_le 4 len),
        split-append_of 32 ph (prev ++ (payload ++ rest)) e1,
        split-append_of 32 prev (payload ++ rest) e2,
        from_le-to_le 4 len hl,
        split-append_of len payload rest e3,
      )
      refl

-- A frame: the prefix, the payload and the frame's own hash.
abbrev pub frame_bytes : FrameMeta → List ℕ → List ℕ → List ℕ → List ℕ → List ℕ
frame_bytes m ph prev payload fh = encode_frame_prefix m (length payload) ph prev ++ (payload ++ fh)

-- A frame whose numbers fit, whose payload has fewer than 2 ^ 32 bytes and whose hashes have 32
-- decodes to what was encoded, and whatever follows it is left.
pub decode_at-encode :
    (m : FrameMeta) (ph prev payload fh rest : List ℕ)
    → FitsMeta m
    → length payload < 256 ^ 4
    → length ph ≡ 32
    → length prev ≡ 32
    → length fh ≡ 32
    → decode_at (frame_bytes m ph prev payload fh ++ rest)
      ≡ ok record {
        frame = record { meta = m; payload_hash = ph; prev_hash = prev; frame_hash = fh };
        payload = payload;
        after_payload = fh ++ rest;
        rest = rest;
      }
unfolding decode_at decode_body
decode_at-encode m ph prev payload fh rest h small e1 e2 e3 =
    rw
      (
        append_assoc (encode_frame_prefix m (length payload) ph prev) (payload ++ fh) rest,
        append_assoc payload fh rest,
        decode_head-encode m (length payload) ph prev (payload ++ (fh ++ rest)) h,
        decode_tail-encode m (length payload) ph prev payload (fh ++ rest) h small e1 e2 refl,
        split-append_of 32 fh rest e3,
      )
      refl
