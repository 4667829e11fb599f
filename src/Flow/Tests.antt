-- ===== src/Flow/Tests.antt =====
-- Runs of the engine at a concrete flow, and the theorems of the engine at concrete inputs.
use crust_core.Prelude.{
  ℕ, ◌≡◌, ◌≢◌, refl, false, none, inl, List, [], ◌∷◌, ◌≤◌, ◌<◌, ◌↔◌, Bool-cases, inr, All, arith,
}
use crust_core.Prelude.Arena.{find}
use crust_core.Types.Status.{Reversibility, requires_approval}
use crust_core.Policy.{supervised, classify_profile, classify}
use crust_core.Policy.Caps.{bind, approve}
use crust_core.Flow.Budget.{
  BudgetBreach, fail_closed, no_usage, FlowBudget, new, charge_step, charge_model, charge_fanout,
}
use crust_core.Prelude.Text.{text_eq}
use crust_core.Flow.State.{
  FlowState, Predicate, new_state, add_approval, any_valid, eval, boundary, bounded_text,
}
use crust_core.Flow.Graph.{
  ToolSpec, Node, Flow, FlowError, fail_closed_tool, needs_approval, node_targets, missing_target,
  validate_nodes, validate,
}
use crust_core.Flow.Drivers.{
  FlowEngine, FlowDrivers, VerifyOutcome, Fallible, completed, gate_decided, gate_tool,
}
use crust_core.Flow.Engine.{
  model_answer, run_subgraph, run_children, run_parallel, run_loop, run_gated, on_node, visit,
  run_from, run_valid, run,
}
use crust_core.Flow.Totals.{IsWithin, run-IsWithin, run_ends, charge_step_iff}
use crust_core.Flow.Outputs.{IsBounded, run-IsBounded}
use crust_core.Flow.Authority.{IsPermitted, gate_tool_iff, run_permitted, run-IsVouched, IsVouched}

-- A test that unfolds this opens the whole engine.
open_engine : Unit {0}
unfolding find classify classify_profile charge_step charge_model charge_fanout any_valid text_eq
    eval boundary bounded_text node_targets missing_target validate_nodes validate gate_decided
    gate_tool model_answer run_subgraph run_children run_parallel run_loop run_gated on_node visit
    run_from run_valid run
open_engine = tt

-- The world is the list of the reversibilities of the tools that ran.
abbrev drivers : FlowDrivers (List Reversibility) ℕ
drivers = record {
  run_model = λ prompt w. (w, inl ((104 ∷ 105 ∷ [], 3)));
  run_tool = λ spec args w. (spec.reversibility ∷ w, inl (111 ∷ 107 ∷ []));
  run_verify = λ w. (w, VerifyOutcome.verified 7);
  run_review = λ w. (w, inl []);
}

abbrev engine : FlowEngine
engine = record { policy = record { profile = supervised }; redact = λ s. s; now_millis = 500 }

abbrev list_files : ToolSpec
list_files = record {
  name = "list_files";
  reversibility = Reversibility.reversible;
  execution_capable = false;
}

-- Model, a fan-out of one, a loop of two turns, a tool and the verifier.
abbrev plan : Flow
plan = record {
  nodes =
      record { id = 0; node = Node.model "plan" (112 ∷ []) 1 }
      ∷ record { id = 1; node = Node.parallel (6 ∷ []) 2 2 }
      ∷ record { id = 2; node = Node.loop_until 6 (Predicate.always false) 2 3 }
      ∷ record { id = 3; node = Node.tool list_files "" (102 ∷ []) 4 }
      ∷ record { id = 4; node = Node.verify 5 }
      ∷ record { id = 5; node = Node.end_node }
      ∷ record { id = 6; node = Node.join 5 }
      ∷ [];
  entry = 0;
}

-- The same with a tool that nobody has classified.
abbrev risky : Flow
risky = record {
  nodes =
      record { id = 0; node = Node.tool (fail_closed_tool "rm") "" (102 ∷ []) 1 }
      ∷ record { id = 1; node = Node.verify 0 }
      ∷ [];
  entry = 0;
}

abbrev limits : FlowBudget
limits = new 10 1000 20 4

plan_completes : (run engine drivers plan limits [] new_state).1 ≡ Fallible.ok (completed 7)
unfolding open_engine
plan_completes = refl

risky_stops :
    (run engine drivers risky limits [] new_state).1 ≡ Fallible.err (FlowError.approval_required 0)
unfolding open_engine
risky_stops = refl

-- `approval_is_read_only_and_externally_minted` of the source's tests
approved_state : FlowState
approved_state = add_approval (approve (bind 7) tt 1 1000) new_state

risky_approved : (run engine drivers risky limits [] approved_state).1 ≡ Fallible.ok (completed 7)
unfolding open_engine approved_state
risky_approved = refl

plan_charges : (run engine drivers plan limits [] new_state).0.usage.steps ≡ 11
unfolding open_engine
plan_charges = refl

plan_valid : validate plan ≡ none
unfolding open_engine
plan_valid = refl

run-IsWithin_example : IsWithin limits (run engine drivers plan limits [] new_state).0.usage
run-IsWithin_example = run-IsWithin engine drivers plan limits [] new_state

run_ends_example : (run engine drivers plan limits [] new_state).1 ≢ Fallible.out_of_fuel
run_ends_example = run_ends engine drivers plan limits [] new_state (omega arith) plan_valid

new_state-IsBounded : IsBounded new_state
new_state-IsBounded key v e = ground arith

run-IsBounded_example : IsBounded (run engine drivers plan limits [] new_state).0.state
run-IsBounded_example = run-IsBounded engine drivers plan limits [] new_state new_state-IsBounded

gate_tool_iff_example :
    (gate_tool engine 0 list_files new_state ≡ none) ↔ IsPermitted engine new_state list_files
gate_tool_iff_example = gate_tool_iff engine 0 list_files new_state

-- No tool that needs an approval has run.
abbrev IsHarmless : List Reversibility → Type 0
IsHarmless w = All (λ r. requires_approval r ≡ false) w

permitted-IsHarmless :
    (spec : ToolSpec) (w : List Reversibility)
    → IsPermitted engine new_state spec
    → IsHarmless w
    → IsHarmless (spec.reversibility ∷ w)
unfolding any_valid
permitted-IsHarmless spec w p h = elim (Bool-cases (needs_approval spec)) [
  | inl e ↦ ground (arith, p.approved e)
  | inr e ↦ (e, h)
]

run_permitted_example :
    ((run engine drivers plan limits [] new_state).0.state.approvals ≡ [])
    × IsHarmless (run engine drivers plan limits [] new_state).0.world
run_permitted_example =
    run_permitted engine drivers plan limits new_state IsHarmless []
      (record { models = λ prompt w q. q; verifies = λ w q. q; reviews = λ w q. q })
      (λ spec args w p q. permitted-IsHarmless spec w p q) tt

run-IsVouched_example :
    IsVouched engine drivers plan limits
      (λ p. p ≡ 7)
      (run engine drivers plan limits [] new_state).1
run-IsVouched_example =
    run-IsVouched engine drivers plan limits (λ p. p ≡ 7) [] new_state (λ v p e. ground arith)
      plan_valid

charge_step_iff_example :
    (charge_step no_usage fail_closed ≡ inr BudgetBreach.steps) ↔ ((64 ≤ 0) × (64 < 4294967295))
charge_step_iff_example = charge_step_iff fail_closed no_usage (omega arith)
