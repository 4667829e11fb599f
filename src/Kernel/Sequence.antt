-- ===== src/Kernel/Sequence.antt =====
-- The idempotency frontier and the sequence counter of the kernel.
use crust_core.Prelude.{◌≤◌, ◌≡◌, ◌≢◌, true, List, [], ◌∷◌, arith}
use crust_core.Kernel.Event.{Event}
use crust_core.Kernel.State.{Kernel}
use crust_core.Kernel.Step.{step, run, is_replay}
use crust_core.Kernel.Counters.{process-SameCounters}

replay_noop : (e : Event) (k : Kernel) → is_replay e k ≡ true → step e k ≡ (k, [])
unfolding step
replay_noop e k r = rw r

-- A step never moves the frontier back, and the frontier after it is at least the sequence number
-- of its event.
pub step-frontier :
    (e : Event) (k : Kernel)
    → (k.applied_through ≤ (step e k).0.applied_through) × (e.seq ≤ (step e k).0.applied_through)
unfolding step
step-frontier e k = ground (arith, process-SameCounters e k)

run-frontier : (es : List Event) (k : Kernel) → k.applied_through ≤ (run es k).applied_through
unfolding run
run-frontier [] k = omega arith
run-frontier (e ∷ es) k = omega (arith, step-frontier e k, run-frontier es (step e k).0)

-- A sequenced event that was delivered once is without effect ever after: delivered again after
-- any further events, it changes nothing and asks for nothing.
pub step_redelivered :
    (e : Event) (es : List Event) (k : Kernel)
    → e.seq ≢ 0
    → step e (run es (step e k).0) ≡ (run es (step e k).0, [])
step_redelivered e es k sequenced =
    replay_noop e (run es (step e k).0)
      (ground (arith, step-frontier e k, run-frontier es (step e k).0))
