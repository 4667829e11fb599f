-- ===== src/Flow/Totals.antt =====
-- The totals of a run, and its end (invariant 11 of the source).
use crust_core.Prelude.{ℕ, suc, ◌+◌, ◌≤◌, ◌<◌, ◌≡◌, ◌≢◌, inl, inr, ◌↔◌, none, arith}
use crust_core.Flow.Budget.{
  FlowBudget, FlowUsage, charge_step, charge_model, charge_fanout, BudgetBreach, u32_max,
}
use crust_core.Flow.State.{FlowState}
use crust_core.Flow.Graph.{Flow, validate}
use crust_core.Flow.Drivers.{FlowEngine, FlowDrivers, Fallible, FlowOutcome, Run}
use crust_core.Flow.Engine.{run}
use crust_core.Flow.Contract.{Laws, Outcome}
use crust_core.Flow.Contract.Runs.{run-Keeps, run-Outcome}

pub record IsWithin (b : FlowBudget) (u : FlowUsage) : Type 0 where
  pub steps : u.steps ≤ b.max_steps
  pub model_cost : u.model_cost ≤ b.max_model_cost
  pub fanout : u.fanout ≤ b.max_total_fanout
  pub wall_ms : u.wall_ms ≤ b.max_wall_ms

module _ (b : FlowBudget) (u v : FlowUsage) where
  charge_step-IsWithin : IsWithin b u → charge_step u b ≡ inl v → IsWithin b v
  unfolding charge_step
  charge_step-IsWithin h e = ground arith

  charge_model-IsWithin : (c : ℕ) → IsWithin b u → charge_model u c b ≡ inl v → IsWithin b v
  unfolding charge_model
  charge_model-IsWithin c h e = ground arith

  charge_fanout-IsWithin : (c : ℕ) → IsWithin b u → charge_fanout u c b ≡ inl v → IsWithin b v
  unfolding charge_fanout
  charge_fanout-IsWithin c h e = ground arith

  -- A step that is granted is counted, unless the counter stands at its maximum.
  charge_step_counts : b.max_steps < u32_max → charge_step u b ≡ inl v → v.steps ≡ suc u.steps
  unfolding charge_step
  charge_step_counts small e = ground arith

module _ {W Patch : Type 0} (eng : FlowEngine) (drivers : FlowDrivers W Patch) (flow : Flow)
    (budget : FlowBudget) where
  IsWithin-Laws :
      Laws eng drivers flow budget (λ n r. IsWithin budget r.usage) (λ e. Unit) Unit (λ p. Unit)
  IsWithin-Laws = record {
    weaken = λ n r i. i;
    empty = λ r i. tt;
    step = λ n r u i e. charge_step-IsWithin budget r.usage u i e;
    cost = λ n c r u i e. charge_model-IsWithin budget r.usage u c i e;
    fanout = λ n c r u i e. charge_fanout-IsWithin budget r.usage u c i e;
    asked = λ n prompt r i. i;
    ran = λ n id spec args r g i. i;
    verified = λ n r i. i;
    patched = λ n r p i e. tt;
    reviewed = λ n r i. i;
    stored = λ n key raw r i. i;
    counted = λ n iter r i. i;
    capped = tt;
    breached = λ b. tt;
    broken = λ why. tt;
    refused = λ id spec r e g. tt;
  }

  -- However a run ends, what it charged is within the budget on every axis.
  pub run-IsWithin :
      (w : W) (st : FlowState) → IsWithin budget (run eng drivers flow budget w st).0.usage
  run-IsWithin w st =
      run-Keeps eng drivers flow budget (λ n r. IsWithin budget r.usage) (λ e. Unit) Unit
        (λ p. Unit) IsWithin-Laws w st (ground arith)

  -- The steps that are left are fewer than the fuel.
  abbrev HasFuel : ℕ → Run W → Type 0
  HasFuel n r = (r.usage.steps ≤ budget.max_steps) × (budget.max_steps < r.usage.steps + n)

  charge_step-HasFuel :
      budget.max_steps < u32_max
      → (n : ℕ) (r : Run W) (u : FlowUsage) → HasFuel (suc n) r
      → charge_step r.usage budget ≡ inl u
      → HasFuel n (record r { usage = u })
  unfolding charge_step
  charge_step-HasFuel small n r u i e = ground arith

  charge_model-HasFuel :
      (n c : ℕ) (r : Run W) (u : FlowUsage)
      → HasFuel n r
      → charge_model r.usage c budget ≡ inl u
      → HasFuel n (record r { usage = u })
  unfolding charge_model
  charge_model-HasFuel n c r u i e = ground arith

  charge_fanout-HasFuel :
      (n c : ℕ) (r : Run W) (u : FlowUsage)
      → HasFuel n r
      → charge_fanout r.usage c budget ≡ inl u
      → HasFuel n (record r { usage = u })
  unfolding charge_fanout
  charge_fanout-HasFuel n c r u i e = ground arith

  HasFuel-Laws :
      budget.max_steps < u32_max → Laws eng drivers flow budget HasFuel (λ e. Unit) ⊥ (λ p. Unit)
  HasFuel-Laws small = record {
    weaken = λ n r i. ground arith;
    empty = λ r i. ground arith;
    step = λ n r u i e. charge_step-HasFuel small n r u i e;
    cost = λ n c r u i e. charge_model-HasFuel n c r u i e;
    fanout = λ n c r u i e. charge_fanout-HasFuel n c r u i e;
    asked = λ n prompt r i. i;
    ran = λ n id spec args r g i. i;
    verified = λ n r i. i;
    patched = λ n r p i e. tt;
    reviewed = λ n r i. i;
    stored = λ n key raw r i. i;
    counted = λ n iter r i. i;
    capped = tt;
    breached = λ b. tt;
    broken = λ why. tt;
    refused = λ id spec r e g. tt;
  }

  Outcome-ends :
      (x : Run W × Fallible (FlowOutcome Patch))
      → Outcome eng drivers flow budget HasFuel (λ e. Unit) ⊥ (λ p. Unit) (suc budget.max_steps) x
      → x.1 ≢ Fallible.out_of_fuel
  Outcome-ends (r, Fallible.out_of_fuel) h e = h.1
  Outcome-ends (r, Fallible.ok o) h e = ground arith
  Outcome-ends (r, Fallible.err x) h e = ground arith

  -- If the step limit is below u32::MAX, a run of a valid flow ends with a result or an error, for
  -- all that the graph has cycles: the fuel that the budget gives is enough.
  pub run_ends :
      (w : W) (st : FlowState)
      → budget.max_steps < u32_max
      → validate flow ≡ none
      → (run eng drivers flow budget w st).1 ≢ Fallible.out_of_fuel
  run_ends w st small valid = Outcome-ends (run eng drivers flow budget w st) (
      run-Outcome eng drivers flow budget HasFuel (λ e. Unit) ⊥ (λ p. Unit) (HasFuel-Laws small) w
        st valid (ground arith))

-- A step is refused exactly when the counter has reached the limit and the limit is below u32::MAX:
-- with the greatest limit, the saturating counter never passes it.
pub charge_step_iff :
    (b : FlowBudget) (u : FlowUsage)
    → b.max_steps ≤ u32_max
    → (charge_step u b ≡ inr BudgetBreach.steps)
      ↔ ((b.max_steps ≤ u.steps) × (b.max_steps < u32_max))
unfolding charge_step
charge_step_iff b u small = ground arith
