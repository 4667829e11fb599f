-- ===== src/Flow/Contract/Runs.antt =====
-- The induction over the loop of `run_from`, and what it gives for a run.
use crust_core.Prelude.{ℕ, zero, suc, ◌≡◌, refl, Option-cases, inl, inr, none}
use crust_core.Flow.Budget.{FlowBudget, charge_step}
use crust_core.Flow.State.{FlowState}
use crust_core.Flow.Graph.{Flow, FlowError, find_node, validate}
use crust_core.Flow.Drivers.{
  FlowEngine, FlowDrivers, FlowOutcome, Fallible, Run, charged, step_capped,
}
use crust_core.Flow.Engine.{visit, run_from, run_valid, run, started}
use crust_core.Flow.Closed.{IsClosed, validate-IsClosed}
use crust_core.Flow.Contract.{Laws, Good, Outcome, Goes, chain, charge, Outcome-weaken}
use crust_core.Flow.Contract.Nodes.{visit-Outcome}

module _ {W Patch : Type 0} (eng : FlowEngine) (drivers : FlowDrivers W Patch) (flow : Flow)
    (budget : FlowBudget) (I : ℕ → Run W → Type 0) (E : FlowError → Type 0) (F : Type 0)
    (P : Patch → Type 0) where
  module _ (laws : Laws eng drivers flow budget I E F P) where
    -- A run of a closed flow, on any fuel, from a node of the flow.
    pub run_from-Outcome :
        IsClosed flow
        → (n : ℕ) → Goes eng drivers flow budget I E F P n (run_from eng drivers flow budget n)
    unfolding run_from
    run_from-Outcome closed zero id r there i = (i, laws.empty r i)
    run_from-Outcome closed (suc n) id r there i =
        chain eng drivers flow budget I E F P (suc n) (λ _ x. I n x)
          (λ o x. I (suc n) x × Good eng drivers flow budget I E F P o)
          (charged step_capped (charge_step r.usage budget) r)
          (λ _ x.
            visit eng drivers flow budget (run_from eng drivers flow budget n) id
              (find_node id flow) x)
          (charge eng drivers flow budget I E F P (suc n) (I n) step_capped
            (charge_step r.usage budget) r i (λ b. laws.capped) (λ u e. laws.step n r u i e))
          (λ _ x ix.
            Outcome-weaken eng drivers flow budget I E F P laws n
              (visit eng drivers flow budget (run_from eng drivers flow budget n) id
                (find_node id flow) x)
              (visit-Outcome eng drivers flow budget I E F P laws n
                (run_from eng drivers flow budget n) (run_from-Outcome closed n) closed id
                (find_node id flow) x refl there ix))

    Outcome-Keeps :
        (n : ℕ) (x : Run W × Fallible (FlowOutcome Patch))
        → Outcome eng drivers flow budget I E F P n x
        → I n x.0
    Outcome-Keeps n (r, Fallible.ok o) h = h.0
    Outcome-Keeps n (r, Fallible.err e) h = h.0
    Outcome-Keeps n (r, Fallible.out_of_fuel) h = h.0

    -- A run of a valid flow.
    pub run-Outcome :
        (w : W) (st : FlowState)
        → validate flow ≡ none
        → I (suc budget.max_steps) (started eng drivers flow budget w st)
        → Outcome eng drivers flow budget I E F P
            (suc budget.max_steps)
            (run eng drivers flow budget w st)
    unfolding run run_valid
    run-Outcome w st valid i =
        let closed = validate-IsClosed flow valid in
        rw valid (
          run_from-Outcome closed (suc budget.max_steps) flow.entry
            (started eng drivers flow budget w st) closed.entry i)

    -- The invariant after a run of any flow; one that is not valid is not run.
    pub run-Keeps :
        (w : W) (st : FlowState)
        → I (suc budget.max_steps) (started eng drivers flow budget w st)
        → I (suc budget.max_steps) (run eng drivers flow budget w st).0
    unfolding run run_valid
    run-Keeps w st i = elim (Option-cases (validate flow)) [
      | inl e ↦
          Outcome-Keeps (suc budget.max_steps) (run eng drivers flow budget w st)
            (run-Outcome w st e i)
      | inr (x, e) ↦ rw e i
    ]
