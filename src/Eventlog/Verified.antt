-- ===== src/Eventlog/Verified.antt =====
-- When a log verifies: exactly when its bytes are a chain of frames.
use crust_core.Prelude.{
  ℕ, zero, suc, ◌+◌, ◌≤◌, ◌≡◌, ◌≢◌, ◌↔◌, refl, ap, ◌∙◌, Option, none, some, List, [], ◌∷◌, length,
  arith,
}
use crust_core.Prelude.Text.{text_eq_refl}
use crust_core.Prelude.Bytes.{split-append_of}
use crust_core.Eventlog.Parser.{ok}
use crust_core.Eventlog.Frame.{Decoded, decode_at}
use crust_core.Eventlog.Log.{
  genesis_prev_hash, ChainStatus, EventLog, check_frame, walk_from, walk, verify,
}
use crust_core.Eventlog.Sound.{
  IsFrame, frame_body-IsFrame, IsLinked, IsChain, Accepts, length-rest, walk_from-Accepts,
}

pub decode_at-reads : (bytes : List ℕ) (d : Decoded) → IsFrame bytes d → decode_at bytes ≡ ok d
unfolding decode_at
decode_at-reads bytes d f =
    rw
      (
        f.covers,
        f.reads d.after_payload,
        f.after,
        split-append_of 32 d.frame.frame_hash d.rest f.hash_length,
      )
      refl

check_frame-linked :
    (bytes prev : List ℕ) (last : Option ℕ) (d : Decoded)
    → IsLinked prev last bytes d
    → check_frame bytes prev last d ≡ none
unfolding check_frame
check_frame-linked bytes prev last d l =
    rw
      (
        l.payload_sealed,
        frame_body-IsFrame bytes d l.frame,
        l.sealed,
        l.linked,
        l.increasing,
        text_eq_refl d.frame.payload_hash,
        text_eq_refl d.frame.frame_hash,
        text_eq_refl prev,
      )
      refl

walk_from-IsChain :
    (fuel : ℕ) (bytes prev : List ℕ) (index : ℕ) (last : Option ℕ) (ds : List Decoded)
    → IsChain prev last bytes ds
    → length bytes ≤ fuel
    → walk_from fuel bytes prev index last ≡ (ds, ChainStatus.intact (index + length ds))
unfolding walk_from
walk_from-IsChain fuel [] prev index last [] c enough =
    ap (λ (n : ℕ). ([], ChainStatus.intact n)) (omega arith)
walk_from-IsChain fuel (b ∷ bs) prev index last [] c enough = ground arith
walk_from-IsChain fuel [] prev index last (d ∷ ds) c enough =
    absurd (omega (arith, length-rest [] d c.0.frame))
walk_from-IsChain zero (b ∷ bs) prev index last (d ∷ ds) c enough = absurd (omega arith)
walk_from-IsChain (suc fuel) (b ∷ bs) prev index last (d ∷ ds) c enough =
    rw
      (
        decode_at-reads (b ∷ bs) d c.0.frame,
        check_frame-linked (b ∷ bs) prev last d c.0,
        walk_from-IsChain fuel d.rest d.frame.frame_hash (suc index) (some d.frame.meta.seq) ds c.1
            (omega (arith, length-rest (b ∷ bs) d c.0.frame)),
      )
      (ap (λ (n : ℕ). (d ∷ ds, ChainStatus.intact n)) (omega arith))

-- What `walk` returns, as a pair.
pub walked : (log : EventLog) → Accepts genesis_prev_hash none log.bytes 0 (walk log)
unfolding walk
walked log = walk_from-Accepts (length log.bytes) log.bytes genesis_prev_hash 0 none (omega arith)

intact_eq : (a b : ℕ) → ChainStatus.intact a ≡ ChainStatus.intact b → a ≡ b
intact_eq a b e = ground arith

pub accepted :
    (bytes : List ℕ) (w : List Decoded × ChainStatus) (n : ℕ)
    → Accepts genesis_prev_hash none bytes 0 w
    → w.1 ≡ ChainStatus.intact n
    → IsChain genesis_prev_hash none bytes w.0 × (length w.0 ≡ n)
accepted bytes (ds, ChainStatus.intact m) n a e = (a.0, omega (arith, a.1, intact_eq m n e))
accepted bytes (ds, ChainStatus.broken m r) n a e = ground arith
accepted bytes (ds, ChainStatus.unfinished) n a e = ground arith

-- A log verifies with n frames exactly when its bytes are a chain of n frames: each decodes, has
-- the hash of its payload and of its own bytes, names the hash of the frame before (the genesis
-- hash at first), and has a greater sequence number than that frame.
pub verify-IsChain :
    (log : EventLog) (n : ℕ)
    → (verify log ≡ ChainStatus.intact n)
      ↔ ((ds : List Decoded) × (IsChain genesis_prev_hash none log.bytes ds) × (length ds ≡ n))
unfolding verify walk
verify-IsChain log n = (
  λ e. let a = accepted log.bytes (walk log) n (walked log) e in ((walk log).0, a.0, a.1),
  λ (ds, c, e).
      ap (λ w. w.1)
        (walk_from-IsChain (length log.bytes) log.bytes genesis_prev_hash 0 none ds c (omega arith))
      ∙ ap ChainStatus.intact (omega (arith, e)),
)

not_unfinished :
    (bytes : List ℕ) (w : List Decoded × ChainStatus)
    → Accepts genesis_prev_hash none bytes 0 w
    → w.1 ≢ ChainStatus.unfinished
not_unfinished bytes (ds, ChainStatus.intact m) a e = ground arith
not_unfinished bytes (ds, ChainStatus.broken m r) a e = ground arith
not_unfinished bytes (ds, ChainStatus.unfinished) a e = a

-- One unit of fuel for each byte is enough: verification always ends in `intact` or `broken`.
pub verify-finishes : (log : EventLog) → verify log ≢ ChainStatus.unfinished
unfolding verify
verify-finishes log = not_unfinished log.bytes (walk log) (walked log)
