-- ===== src/Flow/Contract.antt =====
-- One induction over a run of the engine, for every property of it: an invariant of the state,
-- indexed by the fuel, that each effect keeps, with predicates on the errors and on the patch.
pub mod Nodes
pub mod Runs
use Prim.Native.String.{String}
use crust_core.Prelude.{
  ℕ, zero, suc, min, length, ◌≡◌, refl, Option-cases, Bool-cases, ◌⊎◌, inl, inr, Option, none, some,
  true, List, [], ◌∷◌, ◌++◌, if_intro, arith, All, All-split,
}
use crust_core.Flow.Budget.{
  FlowBudget, FlowUsage, BudgetBreach, charge_step, charge_model, charge_fanout, u32_max,
}
use crust_core.Flow.State.{Text, ℤ, Predicate, eval, set_output, set_counter, declassify}
use crust_core.Flow.Graph.{
  NodeId, ToolSpec, Node, Flow, FlowError, find_node, node_targets, contains,
}
use crust_core.Flow.Drivers.{
  FlowEngine, VerifyOutcome, FlowDrivers, FlowOutcome, completed, finished, Fallible, Run, and_then,
  gate_tool, Next, goto, stop, over_budget, charged, step_capped, Go, subgraph, verdict,
}
use crust_core.Flow.Engine.{
  loop_key, store, answer, model_answer, run_subgraph, run_children, run_parallel, leave_loop,
  run_loop, run_gated, on_node, visit, run_from, child_done, body_done, follow,
}
use crust_core.Flow.Closed.{Present, IsClosed}

-- What a computation leaves: `V` after a result, the invariant and `E` after an error, and the
-- invariant and `F` after the fuel has run out.
abbrev pub Post :
    {W A : Type 0}
    → (Run W → Type 0)
    → (FlowError → Type 0)
    → Type 0
    → (A → Run W → Type 0)
    → Run W × Fallible A
    → Type 0
Post I E F V (r, Fallible.ok a) = V a r
Post I E F V (r, Fallible.err e) = I r × E e
Post I E F V (r, Fallible.out_of_fuel) = I r × F

module _ {W Patch : Type 0} (eng : FlowEngine) (drivers : FlowDrivers W Patch) (flow : Flow)
    (budget : FlowBudget) (I : ℕ → Run W → Type 0) (E : FlowError → Type 0) (F : Type 0)
    (P : Patch → Type 0) where
  -- What an effect must keep.
  pub record Laws : Type 0 where
    pub weaken : (n : ℕ) (r : Run W) → I n r → I (suc n) r
    pub empty : (r : Run W) → I zero r → F
    pub step :
        (n : ℕ) (r : Run W) (u : FlowUsage)
        → I (suc n) r
        → charge_step r.usage budget ≡ inl u
        → I n (record r { usage = u })
    pub cost :
        (n c : ℕ) (r : Run W) (u : FlowUsage)
        → I n r
        → charge_model r.usage c budget ≡ inl u
        → I n (record r { usage = u })
    pub fanout :
        (n c : ℕ) (r : Run W) (u : FlowUsage)
        → I n r
        → charge_fanout r.usage c budget ≡ inl u
        → I n (record r { usage = u })
    pub asked :
        (n : ℕ) (prompt : String) (r : Run W)
        → I n r
        → I n (record r { world = (drivers.run_model prompt r.world).0 })
    pub ran :
        (n : ℕ) (id : NodeId) (spec : ToolSpec) (args : String) (r : Run W)
        → gate_tool eng id spec r.state ≡ none
        → I n r
        → I n (record r { world = (drivers.run_tool spec args r.world).0 })
    pub verified :
        (n : ℕ) (r : Run W) → I n r → I n (record r { world = (drivers.run_verify r.world).0 })
    pub patched :
        (n : ℕ) (r : Run W) (p : Patch)
        → I n r
        → (drivers.run_verify r.world).1 ≡ VerifyOutcome.verified p
        → P p
    pub reviewed :
        (n : ℕ) (r : Run W) → I n r → I n (record r { world = (drivers.run_review r.world).0 })
    pub stored :
        (n : ℕ) (key raw : Text) (r : Run W)
        → I n r
        → I n (record r { state = set_output key (declassify eng.redact raw) r.state })
    pub counted :
        (n iter : ℕ) (r : Run W)
        → I n r
        → I n (record r { state = set_counter loop_key (ℤ.pos iter) r.state })
    pub capped : E FlowError.step_cap_exceeded
    pub breached : (b : BudgetBreach) → E (over_budget b)
    pub broken : (why : String) → E (FlowError.driver_failed why)
    pub refused :
        (id : NodeId) (spec : ToolSpec) (r : Run W) (e : FlowError)
        → gate_tool eng id spec r.state ≡ some e
        → E e

  abbrev pub Good : FlowOutcome Patch → Type 0
  Good (completed p) = P p
  Good finished = Unit

  abbrev pub GoodSubgraph : Option (FlowOutcome Patch) → Type 0
  GoodSubgraph none = Unit
  GoodSubgraph (some o) = Good o

  pub subgraph-Good : (o : FlowOutcome Patch) → Good o → GoodSubgraph (subgraph o)
  subgraph-Good (completed p) h = h
  subgraph-Good finished h = tt

  abbrev pub GoodNext : Next Patch → Type 0
  GoodNext (goto id) = Present flow id
  GoodNext (stop o) = Good o

  abbrev pub Outcome : ℕ → Run W × Fallible (FlowOutcome Patch) → Type 0
  Outcome n = Post (I n) E F (λ o r. I n r × Good o)

  abbrev pub Continues : ℕ → Run W × Fallible (Next Patch) → Type 0
  Continues n = Post (I n) E F (λ next r. I n r × GoodNext next)

  abbrev pub Goes : ℕ → Go W Patch → Type 0
  Goes n go = (id : NodeId) (r : Run W) → Present flow id → I n r → Outcome n (go id r)

  pub chain :
      {A B : Type 0}
      → (n : ℕ) (V : A → Run W → Type 0) (V' : B → Run W → Type 0) (x : Run W × Fallible A)
        (f : A → Run W → Run W × Fallible B)
      → Post (I n) E F V x
      → ((a : A) (r : Run W) → V a r → Post (I n) E F V' (f a r))
      → Post (I n) E F V' (and_then x f)
  chain n V V' (r, Fallible.ok a) f h next = next a r h
  chain n V V' (r, Fallible.err e) f h next = h
  chain n V V' (r, Fallible.out_of_fuel) f h next = h

  pub charge :
      (n : ℕ) (V : Run W → Type 0) (to : BudgetBreach → FlowError) (x : FlowUsage ⊎ BudgetBreach)
      (r : Run W)
      → I n r
      → ((b : BudgetBreach) → E (to b))
      → ((u : FlowUsage) → x ≡ inl u → V (record r { usage = u }))
      → Post (I n) E F (λ _ r'. V r') (charged to x r)
  charge n V to (inl u) r i e ok = ok u refl
  charge n V to (inr b) r i e ok = (i, e b)

  pub Outcome-weaken :
      Laws → (n : ℕ) (x : Run W × Fallible (FlowOutcome Patch)) → Outcome n x → Outcome (suc n) x
  Outcome-weaken laws n (r, Fallible.ok o) h = (laws.weaken n r h.0, h.1)
  Outcome-weaken laws n (r, Fallible.err e) h = (laws.weaken n r h.0, h.1)
  Outcome-weaken laws n (r, Fallible.out_of_fuel) h = (laws.weaken n r h.0, h.1)
