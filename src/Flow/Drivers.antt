-- ===== src/Flow/Drivers.antt =====
-- What the flow engine works with: its drivers and outcomes (crates/crustcore-flow/src/drivers.rs,
-- outcome.rs), and the two gates before an effect, policy and budget (engine.rs). The world that
-- the drivers work on is threaded through the run.
use Prim.Native.String.{String}
use crust_core.Prelude.{ℕ, not, ◌&&◌, if◌then◌else◌, ◌⊎◌, inl, inr, Option, none, some}
use crust_core.Policy.{PolicySnapshot, PolicyDecision, classify, allow, deny, require_approval}
use crust_core.Flow.Budget.{FlowUsage, BudgetBreach, axis}
use crust_core.Flow.State.{ℤ, Text, FlowState, has_valid_approval}
use crust_core.Flow.Graph.{NodeId, ToolSpec, FlowError, needs_approval}

-- `FlowEngine`, the redactor as a function on text
pub record FlowEngine : Type 0 where
  pub policy : PolicySnapshot
  pub redact : Text → Text
  pub now_millis : ℕ

-- `crustcore_runner::ExitStatus`
pub data ExitStatus : Type 0 where
  code : ℤ → ExitStatus
  signal : ℤ → ExitStatus
  timed_out : ExitStatus

-- `crustcore_backend::verify::VerifyOutcome`, over the type of verified patches
pub data VerifyOutcome (Patch : Type 0) : Type 0 where
  verified : Patch → VerifyOutcome Patch
  failed : ExitStatus → Text → VerifyOutcome Patch
  refused : String → VerifyOutcome Patch

-- `FlowDrivers`: `inl` is `Ok`, `inr` carries the reason of the `DriverError`
pub record FlowDrivers (W Patch : Type 0) : Type 0 where
  pub run_model : String → W → W × ((Text × ℕ) ⊎ String)
  pub run_tool : ToolSpec → String → W → W × (Text ⊎ String)
  pub run_verify : W → W × VerifyOutcome Patch
  pub run_review : W → W × (Text ⊎ String)

pub data FlowOutcome (Patch : Type 0) : Type 0 where
  completed : Patch → FlowOutcome Patch
  finished : FlowOutcome Patch

-- `Result<A, FlowError>`, or fuel that has run out.
pub data Fallible (A : Type 0) : Type 0 where
  ok : A → Fallible A
  err : FlowError → Fallible A
  out_of_fuel : Fallible A

-- What a run changes: the world of the drivers, `state` and `usage`.
pub record Run (W : Type 0) : Type 0 where
  pub world : W
  pub state : FlowState
  pub usage : FlowUsage

-- `?`
abbrev pub and_then :
    {W A B : Type 0} → Run W × Fallible A → (A → Run W → Run W × Fallible B) → Run W × Fallible B
and_then (r, Fallible.ok a) f = f a r
and_then (r, Fallible.err e) f = (r, Fallible.err e)
and_then (r, Fallible.out_of_fuel) f = (r, Fallible.out_of_fuel)

-- `FlowEngine::gate_tool`, on the decision of the policy: `none` is `Ok(())`
unfoldable pub gate_decided :
    PolicyDecision → FlowEngine → NodeId → ToolSpec → FlowState → Option FlowError
gate_decided allow eng id spec st =
    if needs_approval spec && not (has_valid_approval eng.now_millis st)
    then some (FlowError.approval_required id)
    else none
gate_decided (require_approval reason) eng id spec st =
    if has_valid_approval eng.now_millis st then none else some (FlowError.approval_required id)
gate_decided (deny reason) eng id spec st = some (FlowError.policy_denied id reason)

-- `FlowEngine::gate_tool`
unfoldable pub gate_tool : FlowEngine → NodeId → ToolSpec → FlowState → Option FlowError
gate_tool eng id spec st = gate_decided (classify eng.policy spec.reversibility) eng id spec st

-- Where the loop of `run_from` goes after a node.
pub data Next (Patch : Type 0) : Type 0 where
  goto : NodeId → Next Patch
  stop : FlowOutcome Patch → Next Patch

abbrev pub over_budget : BudgetBreach → FlowError
over_budget b = FlowError.budget_exceeded (axis b)

-- The usage after a charge, or the error that the breach becomes.
abbrev pub charged :
    {W : Type 0}
    → (BudgetBreach → FlowError)
    → FlowUsage ⊎ BudgetBreach
    → Run W
    → Run W × Fallible (Unit {0})
charged to (inl u) r = (record r { usage = u }, Fallible.ok tt)
charged to (inr b) r = (r, Fallible.err (to b))

abbrev pub step_capped : BudgetBreach → FlowError
step_capped b = FlowError.step_cap_exceeded

abbrev pub Go : Type 0 → Type 0 → Type 0
Go W Patch = NodeId → Run W → Run W × Fallible (FlowOutcome Patch)

-- `run_subgraph`
abbrev pub subgraph : {Patch : Type 0} → FlowOutcome Patch → Option (FlowOutcome Patch)
subgraph (completed p) = some (completed p)
subgraph finished = none

abbrev pub verdict : {Patch : Type 0} → NodeId → VerifyOutcome Patch → Next Patch
verdict on_fail (verified p) = stop (completed p)
verdict on_fail _ = goto on_fail
