-- ===== src/Flow/Outputs.antt =====
-- Untrusted text enters the state of a flow bounded (invariant 7 of the source).
use crust_core.Prelude.{
  subst, ℕ, zero, suc, ◌≤◌, ◌≡◌, Bool-cases, inl, inr, some, length, length-take, arith,
}
use mathlib.Core.Option.{some-injective}
use crust_core.Flow.Budget.{FlowBudget}
use crust_core.Prelude.Text.{text_eq}
use crust_core.Flow.State.{Text, Map, FlowState, insert, boundary, bounded_text, max_output_bytes}
use crust_core.Flow.Graph.{Flow}
use crust_core.Flow.Drivers.{FlowEngine, FlowDrivers}
use crust_core.Flow.Engine.{run}
use crust_core.Flow.Contract.{Laws}
use crust_core.Flow.Contract.Runs.{run-Keeps}

pub boundary_bound : (s : Text) (n : ℕ) → boundary s n ≤ n
unfolding boundary
boundary_bound s zero = omega arith
boundary_bound s (suc n) = ground (arith, boundary_bound s n)

-- Whatever text a driver returns, what is stored of it is bounded.
pub length-bounded_text : (s : Text) → length (bounded_text s) ≤ max_output_bytes
unfolding bounded_text
length-bounded_text s =
    ground (arith, length-take (boundary s max_output_bytes) s, boundary_bound s max_output_bytes)

-- Every output on record is bounded.
abbrev pub IsBounded : FlowState → Type 0
IsBounded st = (key v : Text) → st.outputs key ≡ some v → length v ≤ max_output_bytes

insert-IsBounded :
    (m : Map Text) (key v : Text)
    → length v ≤ max_output_bytes
    → ((k x : Text) → m k ≡ some x → length x ≤ max_output_bytes)
    → (k x : Text) → insert key v m k ≡ some x
    → length x ≤ max_output_bytes
insert-IsBounded m key v small h k x e = elim (Bool-cases (text_eq k key)) [
  | inl t ↦ subst (λ y. length y ≤ max_output_bytes) (some-injective _ _ (rw t at e)) small
  | inr t ↦ h k x (rw t at e)
]

module _ {W Patch : Type 0} (eng : FlowEngine) (drivers : FlowDrivers W Patch) (flow : Flow)
    (budget : FlowBudget) where
  IsBounded-Laws :
      Laws eng drivers flow budget (λ n r. IsBounded r.state) (λ e. Unit) Unit (λ p. Unit)
  IsBounded-Laws = record {
    weaken = λ n r i. i;
    empty = λ r i. tt;
    step = λ n r u i e. i;
    cost = λ n c r u i e. i;
    fanout = λ n c r u i e. i;
    asked = λ n prompt r i. i;
    ran = λ n id spec args r g i. i;
    verified = λ n r i. i;
    patched = λ n r p i e. tt;
    reviewed = λ n r i. i;
    stored = λ n key raw r i.
        insert-IsBounded r.state.outputs key (bounded_text (eng.redact raw))
          (length-bounded_text (eng.redact raw)) i;
    counted = λ n iter r i. i;
    capped = tt;
    breached = λ b. tt;
    broken = λ why. tt;
    refused = λ id spec r e g. tt;
  }

  -- If every output of the state that a run starts from is bounded by the output limit, so is every
  -- output of the state that it ends in, whatever the drivers and the redactor return.
  pub run-IsBounded :
      (w : W) (st : FlowState) → IsBounded st → IsBounded (run eng drivers flow budget w st).0.state
  run-IsBounded w st h =
      run-Keeps eng drivers flow budget (λ n r. IsBounded r.state) (λ e. Unit) Unit (λ p. Unit)
        IsBounded-Laws w st h
