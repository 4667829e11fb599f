-- ===== src/Eventlog/Appends.antt =====
-- A log that was built by appending verifies.
use mathlib.Core.List.{append_assoc, append-nil}
use crust_core.Prelude.{
  ℕ, zero, suc, ◌+◌, ◌^◌, ◌≤◌, ◌<◌, min, ◌≡◌, refl, sym, ap, ◌∙◌, subst, true, Option, none, some,
  List, [], ◌∷◌, ◌++◌, length, length-append, take, take-length, take-length-append, arith,
}
use crust_core.Prelude.Text.{text_eq_refl}
use crust_core.Types.Word.{u32_max}
use crust_core.Types.Hash.{sha256, zeros}
use crust_core.Types.Hash.Laws.{length-sha256}
use crust_core.Eventlog.Parser.{ok}
use crust_core.Eventlog.Frame.{FrameMeta, Decoded, encode_frame_prefix, decode_at}
use crust_core.Eventlog.Codec.{FitsMeta, decode_at-encode}
use crust_core.Eventlog.Log.{
  genesis_prev_hash, ChainStatus, EventLog, new_log, written, unsealed, append, frame_body, follows,
  check_frame, on_decoded, walk_from, walk, verify, last_hash, verify_to_head,
}

-- `append`, one entry after the other
unfoldable pub append_all : List (FrameMeta × List ℕ) → EventLog → EventLog
append_all [] log = log
append_all ((m, p) ∷ es) log = append_all es (append m p log).0

-- The entries fit their fields, and their sequence numbers increase.
abbrev pub IsAppendable : Option ℕ → List (FrameMeta × List ℕ) → Type 0
IsAppendable last [] = Unit {0}
IsAppendable last ((m, p) ∷ es) =
    FitsMeta m × (length p < 256 ^ 4) × (follows last m.seq ≡ true) × IsAppendable (some m.seq) es

abbrev seal : FrameMeta → List ℕ → List ℕ → List ℕ
seal m p prev = sha256 (unsealed m p prev)

-- The bytes, the head and the frames that appending to a log with the head `prev` adds.
unfoldable pub chain_bytes : List ℕ → List (FrameMeta × List ℕ) → List ℕ
chain_bytes prev [] = []
chain_bytes prev ((m, p) ∷ es) =
    (unsealed m p prev ++ seal m p prev) ++ chain_bytes (seal m p prev) es

unfoldable pub chain_head : List ℕ → List (FrameMeta × List ℕ) → List ℕ
chain_head prev [] = prev
chain_head prev ((m, p) ∷ es) = chain_head (seal m p prev) es

abbrev decoded_of : FrameMeta → List ℕ → List ℕ → List ℕ → Decoded
decoded_of m p prev rest = record {
  frame = record {
    meta = m;
    payload_hash = sha256 p;
    prev_hash = prev;
    frame_hash = seal m p prev;
  };
  payload = p;
  after_payload = seal m p prev ++ rest;
  rest = rest;
}

unfoldable pub chain_frames : List ℕ → List (FrameMeta × List ℕ) → List Decoded
chain_frames prev [] = []
chain_frames prev ((m, p) ∷ es) =
    decoded_of m p prev (chain_bytes (seal m p prev) es) ∷ chain_frames (seal m p prev) es

bytes-append_all :
    (es : List (FrameMeta × List ℕ)) (log : EventLog)
    → (append_all es log).bytes ≡ log.bytes ++ chain_bytes log.head_hash es
unfolding append_all append chain_bytes
bytes-append_all [] log = sym (append-nil log.bytes)
bytes-append_all ((m, p) ∷ es) log =
    bytes-append_all es (append m p log).0
    ∙ append_assoc log.bytes (unsealed m p log.head_hash ++ seal m p log.head_hash)
        (chain_bytes (seal m p log.head_hash) es)

head-append_all :
    (es : List (FrameMeta × List ℕ)) (log : EventLog)
    → (append_all es log).head_hash ≡ chain_head log.head_hash es
unfolding append_all append chain_head
head-append_all [] log = refl
head-append_all ((m, p) ∷ es) log = head-append_all es (append m p log).0

count-append_all :
    (es : List (FrameMeta × List ℕ)) (log : EventLog)
    → (append_all es log).count ≡ log.count + length es
unfolding append_all append
count-append_all [] log = omega arith
count-append_all ((m, p) ∷ es) log = omega (arith, count-append_all es (append m p log).0)

module _ (p : List ℕ) (small : length p < 256 ^ 4) where
  min_small : min (length p) u32_max ≡ length p
  min_small = omega arith

  written_small : written p ≡ p
  written_small = rw min_small (take-length p)

decode_at-sealed :
    (m : FrameMeta) (p prev rest : List ℕ)
    → FitsMeta m
    → length p < 256 ^ 4
    → length prev ≡ 32
    → decode_at ((unsealed m p prev ++ seal m p prev) ++ rest) ≡ ok (decoded_of m p prev rest)
decode_at-sealed m p prev rest h small e =
    rw (min_small p small, take-length p)
      (ap (λ bs. decode_at (bs ++ rest))
          (append_assoc (encode_frame_prefix m (length p) (sha256 p) prev) p
            (sha256 (encode_frame_prefix m (length p) (sha256 p) prev ++ p)))
        ∙ decode_at-encode m (sha256 p) prev p
            (sha256 (encode_frame_prefix m (length p) (sha256 p) prev ++ p)) rest h small
            (length-sha256 p) e
            (length-sha256 (encode_frame_prefix m (length p) (sha256 p) prev ++ p)))

frame_body-sealed :
    (m : FrameMeta) (p prev rest : List ℕ)
    → frame_body ((unsealed m p prev ++ seal m p prev) ++ rest) (decoded_of m p prev rest)
      ≡ unsealed m p prev
frame_body-sealed m p prev rest =
    let body = unsealed m p prev in
    let after = seal m p prev ++ rest in
    rw (append_assoc body (seal m p prev) rest) (
      subst (λ (n : ℕ). take n (body ++ after) ≡ body) (omega (arith, length-append body after))
        (take-length-append body after))

check_frame-sealed :
    (m : FrameMeta) (p prev rest : List ℕ) (last : Option ℕ)
    → follows last m.seq ≡ true
    → check_frame
        ((unsealed m p prev ++ seal m p prev) ++ rest)
        prev
        last
        (decoded_of m p prev rest)
      ≡ none
unfolding check_frame
check_frame-sealed m p prev rest last h =
    rw
      (
        text_eq_refl (sha256 p),
        frame_body-sealed m p prev rest,
        text_eq_refl (seal m p prev),
        text_eq_refl prev,
        h,
      )
      refl

-- One turn of the loop of `walk`, on bytes that are there.
walk_from_step :
    (fuel : ℕ) (bs prev : List ℕ) (index : ℕ) (last : Option ℕ)
    → 0 < length bs
    → walk_from (suc fuel) bs prev index last
      ≡ on_decoded bs prev index last
          (decode_at bs)
          (λ d. walk_from fuel d.rest d.frame.frame_hash (suc index) (some d.frame.meta.seq))
unfolding walk_from
walk_from_step fuel [] prev index last h = absurd (omega arith)
walk_from_step fuel (b ∷ bs) prev index last h = refl

length-sealed :
    (m : FrameMeta) (p prev rest : List ℕ)
    → length ((unsealed m p prev ++ seal m p prev) ++ rest)
      ≡ length (unsealed m p prev) + 32 + length rest
length-sealed m p prev rest = omega (
  arith,
  length-append (unsealed m p prev ++ seal m p prev) rest,
  length-append (unsealed m p prev) (seal m p prev),
  length-sha256 (unsealed m p prev),
)

walk_from-chain_bytes :
    (fuel index : ℕ) (prev : List ℕ) (last : Option ℕ) (es : List (FrameMeta × List ℕ))
    → length prev ≡ 32
    → IsAppendable last es
    → length (chain_bytes prev es) ≤ fuel
    → walk_from fuel (chain_bytes prev es) prev index last
      ≡ (chain_frames prev es, ChainStatus.intact (index + length es))
unfolding chain_bytes chain_frames walk_from
walk_from-chain_bytes fuel index prev last [] e h enough =
    ap (λ (n : ℕ). ([], ChainStatus.intact n)) (omega arith)
walk_from-chain_bytes zero index prev last ((m, p) ∷ es) e h enough =
    absurd (omega (arith, length-sealed m p prev (chain_bytes (seal m p prev) es)))
walk_from-chain_bytes (suc fuel) index prev last ((m, p) ∷ es) e h enough =
    let rest = chain_bytes (seal m p prev) es in
    let whole = (unsealed m p prev ++ seal m p prev) ++ rest in
    walk_from_step fuel whole prev index last (omega (arith, length-sealed m p prev rest))
    ∙ rw
        (
          decode_at-sealed m p prev rest h.0 h.1 e,
          check_frame-sealed m p prev rest last h.2,
          walk_from-chain_bytes fuel (suc index) (seal m p prev) (some m.seq) es
              (length-sha256 (unsealed m p prev)) h.3 (omega (arith, length-sealed m p prev rest)),
        )
        (ap
          (λ (n : ℕ).
            (decoded_of m p prev rest ∷ chain_frames (seal m p prev) es, ChainStatus.intact n))
          (omega arith))

last_hash-chain_frames :
    (prev : List ℕ) (es : List (FrameMeta × List ℕ))
    → last_hash prev (chain_frames prev es) ≡ chain_head prev es
unfolding last_hash chain_frames chain_head
last_hash-chain_frames prev [] = refl
last_hash-chain_frames prev ((m, p) ∷ es) = last_hash-chain_frames (seal m p prev) es

-- The walk of a log that was built by appending.
pub walk-append_all :
    (es : List (FrameMeta × List ℕ))
    → IsAppendable none es
    → walk (append_all es new_log)
      ≡ (chain_frames genesis_prev_hash es, ChainStatus.intact (length es))
unfolding walk zeros
walk-append_all es h =
    let bs = chain_bytes genesis_prev_hash es in
    subst
      (λ x.
        walk_from (length x) x genesis_prev_hash 0 none
        ≡ (chain_frames genesis_prev_hash es, ChainStatus.intact (length es)))
      (sym (bytes-append_all es new_log))
      (walk_from-chain_bytes (length bs) 0 genesis_prev_hash none es refl h (omega arith)
        ∙ ap (λ (n : ℕ). (chain_frames genesis_prev_hash es, ChainStatus.intact n)) (omega arith))

-- A log built by appending frames that fit their fields, with increasing sequence numbers and
-- payloads of fewer than 2 ^ 32 bytes, verifies, with one frame for each append; it verifies up to
-- its own head; and it counts its frames.
pub verify-append_all :
    (es : List (FrameMeta × List ℕ))
    → IsAppendable none es
    → (verify (append_all es new_log) ≡ ChainStatus.intact (length es))
      × (verify_to_head (append_all es new_log).head_hash (append_all es new_log)
          ≡ ChainStatus.intact (length es))
      × ((append_all es new_log).count ≡ length es)
unfolding verify verify_to_head
verify-append_all es h = (
  ap (λ w. w.1) (walk-append_all es h),
  rw
      (
        walk-append_all es h,
        head-append_all es new_log,
        last_hash-chain_frames genesis_prev_hash es,
        text_eq_refl (chain_head genesis_prev_hash es),
      )
      refl,
  omega (arith, count-append_all es new_log),
)
