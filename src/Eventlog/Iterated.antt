-- ===== src/Eventlog/Iterated.antt =====
-- On a log that verifies, `iter` finds the frames that the walk found.
use crust_core.Prelude.{
  ℕ, zero, suc, ◌≤◌, ◌≡◌, refl, ap, ◌∙◌, Option, none, some, List, [], ◌∷◌, length, arith,
}
use crust_core.Eventlog.Frame.{FrameMeta, Decoded}
use crust_core.Eventlog.Log.{genesis_prev_hash, new_log, walk, iter_from, iter}
use crust_core.Eventlog.Sound.{IsChain, length-rest}
use crust_core.Eventlog.Verified.{decode_at-reads, walked, accepted}
use crust_core.Eventlog.Appends.{append_all, IsAppendable, chain_frames, walk-append_all}

iter_from-IsChain :
    (fuel : ℕ) (bytes prev : List ℕ) (last : Option ℕ) (ds : List Decoded)
    → IsChain prev last bytes ds
    → length bytes ≤ fuel
    → iter_from fuel bytes ≡ ds
unfolding iter_from
iter_from-IsChain fuel [] prev last [] c enough = refl
iter_from-IsChain fuel (b ∷ bs) prev last [] c enough = ground arith
iter_from-IsChain fuel [] prev last (d ∷ ds) c enough =
    absurd (omega (arith, length-rest [] d c.0.frame))
iter_from-IsChain zero (b ∷ bs) prev last (d ∷ ds) c enough = absurd (omega arith)
iter_from-IsChain (suc fuel) (b ∷ bs) prev last (d ∷ ds) c enough =
    rw (decode_at-reads (b ∷ bs) d c.0.frame) (
      ap (λ x. d ∷ x)
        (iter_from-IsChain fuel d.rest d.frame.frame_hash (some d.frame.meta.seq) ds c.1
          (omega (arith, length-rest (b ∷ bs) d c.0.frame))))

pub iter-IsChain :
    (bytes : List ℕ) (ds : List Decoded) → IsChain genesis_prev_hash none bytes ds → iter bytes ≡ ds
unfolding iter
iter-IsChain bytes ds c =
    iter_from-IsChain (length bytes) bytes genesis_prev_hash none ds c (omega arith)

-- The frames of a log that was built by appending.
pub iter-append_all :
    (es : List (FrameMeta × List ℕ))
    → IsAppendable none es
    → iter (append_all es new_log).bytes ≡ chain_frames genesis_prev_hash es
iter-append_all es h =
    let log = append_all es new_log in
    let w = walk-append_all es h in
    iter-IsChain log.bytes (walk log).0
      (accepted log.bytes (walk log) (length es) (walked log) (ap (λ x. x.1) w)).0
    ∙ ap (λ x. x.0) w
