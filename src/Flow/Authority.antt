-- ===== src/Flow/Authority.antt =====
-- What a run may do to the world, and how it may end (invariants 4, 8, 13 and 14 of the source).
use Prim.Native.String.{String}
use crust_core.Prelude.{ℕ, suc, ◌≡◌, ◌≢◌, ◌↔◌, refl, sym, ap, ◌∙◌, true, none, some, arith}
use crust_core.Policy.{read_only, classify, classify_profile}
use crust_core.Flow.Budget.{FlowBudget}
use crust_core.Flow.State.{FlowState, any_valid, has_valid_approval}
use crust_core.Flow.Graph.{NodeId, ToolSpec, Flow, FlowError, needs_approval, validate}
use crust_core.Flow.Drivers.{
  FlowEngine, FlowDrivers, VerifyOutcome, Fallible, FlowOutcome, completed, finished, Run,
  gate_decided, gate_tool,
}
use crust_core.Flow.Engine.{run}
use crust_core.Flow.Contract.{Laws, Outcome}
use crust_core.Flow.Contract.Runs.{run-Keeps, run-Outcome}

-- The policy lets tools run, and an irreversible tool has a valid approval.
pub record IsPermitted (eng : FlowEngine) (st : FlowState) (spec : ToolSpec) : Type 0 where
  pub may_run : eng.policy.profile ≢ read_only
  pub approved : needs_approval spec ≡ true → has_valid_approval eng.now_millis st ≡ true

gate_tool-IsPermitted :
    (eng : FlowEngine) (id : NodeId) (spec : ToolSpec) (st : FlowState)
    → gate_tool eng id spec st ≡ none
    → IsPermitted eng st spec
unfolding gate_tool gate_decided classify classify_profile
gate_tool-IsPermitted eng id spec st g = ground arith

IsPermitted-gate_tool :
    (eng : FlowEngine) (id : NodeId) (spec : ToolSpec) (st : FlowState)
    → IsPermitted eng st spec
    → gate_tool eng id spec st ≡ none
unfolding gate_tool gate_decided classify classify_profile
IsPermitted-gate_tool eng id spec st p = ground arith

-- The gate lets a tool pass exactly when the profile is not read-only and, if the tool is
-- irreversible, an approval in the state is valid now.
pub gate_tool_iff :
    (eng : FlowEngine) (id : NodeId) (spec : ToolSpec) (st : FlowState)
    → (gate_tool eng id spec st ≡ none) ↔ IsPermitted eng st spec
gate_tool_iff eng id spec st =
    (gate_tool-IsPermitted eng id spec st, IsPermitted-gate_tool eng id spec st)

IsPermitted-same :
    (eng : FlowEngine) (s t : FlowState) (spec : ToolSpec)
    → s.approvals ≡ t.approvals
    → IsPermitted eng s spec
    → IsPermitted eng t spec
IsPermitted-same eng s t spec e p = record {
  may_run = p.may_run;
  approved = λ n. ap (any_valid eng.now_millis) (sym e) ∙ p.approved n;
}

module _ {W Patch : Type 0} (eng : FlowEngine) (drivers : FlowDrivers W Patch) (flow : Flow)
    (budget : FlowBudget) where
  -- The approvals that a run starts with, and a property of the world.
  abbrev IsGuarded : FlowState → (W → Type 0) → ℕ → Run W → Type 0
  IsGuarded st Q n r = (r.state.approvals ≡ st.approvals) × Q r.world

  -- What the calls that need no permission keep.
  pub record AdviceKeeps (Q : W → Type 0) : Type 0 where
    pub models : (prompt : String) (w : W) → Q w → Q (drivers.run_model prompt w).0
    pub verifies : (w : W) → Q w → Q (drivers.run_verify w).0
    pub reviews : (w : W) → Q w → Q (drivers.run_review w).0

  IsGuarded-Laws :
      (st : FlowState) (Q : W → Type 0)
      → AdviceKeeps Q
      → ((spec : ToolSpec) (args : String) (w : W)
          → IsPermitted eng st spec
          → Q w
          → Q (drivers.run_tool spec args w).0)
      → Laws eng drivers flow budget (IsGuarded st Q) (λ e. Unit) Unit (λ p. Unit)
  IsGuarded-Laws st Q advice tools = record {
    weaken = λ n r i. i;
    empty = λ r i. tt;
    step = λ n r u i e. i;
    cost = λ n c r u i e. i;
    fanout = λ n c r u i e. i;
    asked = λ n prompt r i. (i.0, advice.models prompt r.world i.1);
    ran = λ n id spec args r g i. (
      i.0,
      tools spec args r.world
          (IsPermitted-same eng r.state st spec i.0 (gate_tool-IsPermitted eng id spec r.state g))
          i.1,
    );
    verified = λ n r i. (i.0, advice.verifies r.world i.1);
    patched = λ n r p i e. tt;
    reviewed = λ n r i. (i.0, advice.reviews r.world i.1);
    stored = λ n key raw r i. i;
    counted = λ n iter r i. i;
    capped = tt;
    breached = λ b. tt;
    broken = λ why. tt;
    refused = λ id spec r e g. tt;
  }

  -- A property of the world that models, verification and reviews keep, and that the tools keep
  -- which the policy and the approvals at the start of the run permit, is kept by the run: no tool
  -- runs without that permission. The run leaves the approvals as they were.
  pub run_permitted :
      (st : FlowState) (Q : W → Type 0) (w : W)
      → AdviceKeeps Q
      → ((spec : ToolSpec) (args : String) (v : W)
          → IsPermitted eng st spec
          → Q v
          → Q (drivers.run_tool spec args v).0)
      → Q w
      → ((run eng drivers flow budget w st).0.state.approvals ≡ st.approvals)
        × Q (run eng drivers flow budget w st).0.world
  run_permitted st Q w advice tools q =
      run-Keeps eng drivers flow budget (IsGuarded st Q) (λ e. Unit) Unit (λ p. Unit)
        (IsGuarded-Laws st Q advice tools) w st (refl, q)

  abbrev IsMapped : FlowError → Type 0
  IsMapped (FlowError.unknown_node id) = ⊥
  IsMapped _ = Unit

  refused-IsMapped :
      (id : NodeId) (spec : ToolSpec) (st : FlowState) (e : FlowError)
      → gate_tool eng id spec st ≡ some e
      → IsMapped e
  unfolding gate_tool gate_decided classify classify_profile
  refused-IsMapped id spec st (FlowError.unknown_node x) g = ground arith
  refused-IsMapped id spec st _ g = tt

  completion-Laws :
      (P : Patch → Type 0)
      → ((w : W) (p : Patch) → (drivers.run_verify w).1 ≡ VerifyOutcome.verified p → P p)
      → Laws eng drivers flow budget (λ n r. Unit) IsMapped Unit P
  completion-Laws P vouch = record {
    weaken = λ n r i. tt;
    empty = λ r i. tt;
    step = λ n r u i e. tt;
    cost = λ n c r u i e. tt;
    fanout = λ n c r u i e. tt;
    asked = λ n prompt r i. tt;
    ran = λ n id spec args r g i. tt;
    verified = λ n r i. tt;
    patched = λ n r p i e. vouch r.world p e;
    reviewed = λ n r i. tt;
    stored = λ n key raw r i. tt;
    counted = λ n iter r i. tt;
    capped = tt;
    breached = λ b. tt;
    broken = λ why. tt;
    refused = λ id spec r e g. refused-IsMapped id spec r.state e g;
  }

  -- A result that carries a patch carries one that satisfies `P`; no error names a missing node.
  abbrev pub IsVouched : (Patch → Type 0) → Fallible (FlowOutcome Patch) → Type 0
  IsVouched P (Fallible.ok (completed p)) = P p
  IsVouched P (Fallible.err (FlowError.unknown_node id)) = ⊥
  IsVouched P _ = Unit

  Outcome-IsVouched :
      (P : Patch → Type 0) (x : Run W × Fallible (FlowOutcome Patch))
      → Outcome eng drivers flow budget (λ n r. Unit) IsMapped Unit P (suc budget.max_steps) x
      → IsVouched P x.1
  Outcome-IsVouched P (r, Fallible.ok (completed p)) h = h.1
  Outcome-IsVouched P (r, Fallible.ok finished) h = tt
  Outcome-IsVouched P (r, Fallible.err (FlowError.unknown_node id)) h = h.1
  Outcome-IsVouched P (r, Fallible.err _) h = tt
  Outcome-IsVouched P (r, Fallible.out_of_fuel) h = tt

  -- If every patch that the verifier returns satisfies a predicate, a run of a valid flow
  -- completes only with a patch that satisfies it, and it never meets a node that is not in the
  -- graph.
  pub run-IsVouched :
      (P : Patch → Type 0) (w : W) (st : FlowState)
      → ((v : W) (p : Patch) → (drivers.run_verify v).1 ≡ VerifyOutcome.verified p → P p)
      → validate flow ≡ none
      → IsVouched P (run eng drivers flow budget w st).1
  run-IsVouched P w st vouch valid = Outcome-IsVouched P (run eng drivers flow budget w st) (
      run-Outcome eng drivers flow budget (λ n r. Unit) IsMapped Unit P (completion-Laws P vouch) w
        st valid tt)
