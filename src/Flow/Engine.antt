-- ===== src/Flow/Engine.antt =====
-- The scheduler (crates/crustcore-flow/src/engine.rs). The loop of `run_from` runs on fuel, and each
-- turn of it, nested ones included, charges one step of the budget.
use Prim.Native.String.{String}
use crust_core.Prelude.{
  Bool, true, false, ℕ, zero, suc, min, if◌then◌else◌, ◌⊎◌, inl, inr, Option, none, some, List, [],
  ◌∷◌, length,
}
use crust_core.Flow.Budget.{FlowBudget, no_usage, charge_step, charge_model, charge_fanout, u32_max}
use crust_core.Flow.State.{Text, ℤ, FlowState, Predicate, eval, set_output, set_counter, declassify}
use crust_core.Flow.Graph.{NodeId, ToolSpec, Node, Flow, FlowError, find_node, validate}
use crust_core.Flow.Drivers.{
  FlowEngine, FlowDrivers, FlowOutcome, finished, Fallible, Run, and_then, gate_tool, Next, goto,
  stop, over_budget, charged, step_capped, Go, subgraph, verdict,
}

-- `"__loop_iterations"`
abbrev pub loop_key : Text
loop_key =
    95 ∷ 95 ∷ 108 ∷ 111 ∷ 111 ∷ 112 ∷ 95 ∷ 105 ∷ 116 ∷ 101 ∷ 114 ∷ 97 ∷ 116 ∷ 105 ∷ 111 ∷ 110 ∷ 115
    ∷ []

module _ {W Patch : Type 0} where
  -- `state.set_output(out_key, declassify(raw, self.redactor))`
  abbrev pub store : FlowEngine → Text → Text → NodeId → Run W → Run W × Fallible (Next Patch)
  store eng key raw next r = (
    record r { state = set_output key (declassify eng.redact raw) r.state },
    Fallible.ok (goto next),
  )

  abbrev pub answer :
      FlowEngine → Text → NodeId → Text ⊎ String → Run W → Run W × Fallible (Next Patch)
  answer eng key next (inl raw) r = store eng key raw next r
  answer eng key next (inr e) r = (r, Fallible.err (FlowError.driver_failed e))

  unfoldable pub model_answer :
      FlowEngine
      → FlowBudget
      → Text
      → NodeId
      → (Text × ℕ) ⊎ String
      → Run W
      → Run W × Fallible (Next Patch)
  model_answer eng b key next (inl (raw, cost)) r =
      and_then (charged over_budget (charge_model r.usage cost b) r)
        (λ _ r'. store eng key raw next r')
  model_answer eng b key next (inr e) r = (r, Fallible.err (FlowError.driver_failed e))

  unfoldable pub run_subgraph :
      Go W Patch → NodeId → Run W → Run W × Fallible (Option (FlowOutcome Patch))
  run_subgraph go start r = and_then (go start r) (λ o r'. (r', Fallible.ok (subgraph o)))

  abbrev pub child_done :
      Option (FlowOutcome Patch)
      → (Run W → Run W × Fallible (Unit {0}))
      → Run W
      → Run W × Fallible (Unit {0})
  child_done none rest r = rest r
  child_done (some o) rest r = (
    r,
    Fallible.err (
        FlowError.driver_failed
          "a verify completion inside a parallel child is not a valid plan; completion is reserved for the top-level verify path"),
  )

  -- The waves of `run_parallel`: `chunks` visits the children in their order.
  unfoldable pub run_children : Go W Patch → List NodeId → Run W → Run W × Fallible (Unit {0})
  run_children go [] r = (r, Fallible.ok tt)
  run_children go (c ∷ cs) r =
      and_then (run_subgraph go c r) (λ o r'. child_done o (run_children go cs) r')

  -- `run_parallel`, with `u32::try_from(children.len()).unwrap_or(u32::MAX)`
  unfoldable pub run_parallel :
      Go W Patch → FlowBudget → List NodeId → Run W → Run W × Fallible (Unit {0})
  run_parallel go b children r =
      and_then (charged over_budget (charge_fanout r.usage (min (length children) u32_max) b) r)
        (λ _ r'. run_children go children r')

  abbrev pub leave_loop : ℕ → NodeId → Run W → Run W × Fallible (Next Patch)
  leave_loop iter next r =
      (record r { state = set_counter loop_key (ℤ.pos iter) r.state }, Fallible.ok (goto next))

  abbrev pub body_done :
      Option (FlowOutcome Patch)
      → (Run W → Run W × Fallible (Next Patch))
      → Run W
      → Run W × Fallible (Next Patch)
  body_done none rest r = rest r
  body_done (some o) rest r = (r, Fallible.ok (stop o))

  -- One of two continuations.
  abbrev pub branch :
      Bool
      → (Run W → Run W × Fallible (Next Patch))
      → (Run W → Run W × Fallible (Next Patch))
      → Run W
      → Run W × Fallible (Next Patch)
  branch true f g r = f r
  branch false f g r = g r

  -- The `while` of a loop node: what is left of `max_iterations`, and `iter`.
  unfoldable pub run_loop :
      Go W Patch → NodeId → Predicate → NodeId → ℕ → ℕ → Run W → Run W × Fallible (Next Patch)
  run_loop go body until next zero iter r = leave_loop iter next r
  run_loop go body until next (suc left) iter r =
      branch (eval until r.state) (leave_loop iter next)
        (λ x.
          and_then (run_subgraph go body x)
            (λ o x'. body_done o (run_loop go body until next left (suc iter)) x'))
        r

  module _ (eng : FlowEngine) (drivers : FlowDrivers W Patch) (flow : Flow)
      (budget : FlowBudget) where
    unfoldable pub run_gated :
        Option FlowError → ToolSpec → String → Text → NodeId → Run W → Run W × Fallible (Next Patch)
    run_gated (some e) spec args key next r = (r, Fallible.err e)
    run_gated none spec args key next r =
        let (w, raw) = drivers.run_tool spec args r.world in
        answer eng key next raw (record r { world = w })

    -- The `match node` of `run_from`.
    unfoldable pub on_node : Go W Patch → NodeId → Node → Run W → Run W × Fallible (Next Patch)
    on_node go id (Node.model prompt key next) r =
        let (w, a) = drivers.run_model prompt r.world in
        model_answer eng budget key next a (record r { world = w })
    on_node go id (Node.tool spec args key next) r =
        run_gated (gate_tool eng id spec r.state) spec args key next r
    on_node go id (Node.verify on_fail) r =
        let (w, o) = drivers.run_verify r.world in
        (record r { world = w }, Fallible.ok (verdict on_fail o))
    on_node go id (Node.review key next) r =
        let (w, a) = drivers.run_review r.world in answer eng key next a (record r { world = w })
    on_node go id (Node.parallel children width join_at) r =
        and_then (run_parallel go budget children r) (λ _ r'. (r', Fallible.ok (goto join_at)))
    on_node go id (Node.loop_until body until cap next) r = run_loop go body until next cap 0 r
    on_node go id (Node.route p if_true if_false) r =
        (r, Fallible.ok (goto (if eval p r.state then if_true else if_false)))
    on_node go id (Node.join next) r = (r, Fallible.ok (goto next))
    on_node go id Node.end_node r = (r, Fallible.ok (stop finished))

    abbrev pub follow : Go W Patch → Next Patch → Run W → Run W × Fallible (FlowOutcome Patch)
    follow go (goto id) r = go id r
    follow go (stop o) r = (r, Fallible.ok o)

    unfoldable pub visit :
        Go W Patch → NodeId → Option Node → Run W → Run W × Fallible (FlowOutcome Patch)
    visit go id none r = (r, Fallible.err (FlowError.unknown_node id))
    visit go id (some node) r = and_then (on_node go id node r) (λ next r'. follow go next r')

    -- `FlowEngine::run_from`
    unfoldable pub run_from : ℕ → NodeId → Run W → Run W × Fallible (FlowOutcome Patch)
    run_from zero id r = (r, Fallible.out_of_fuel)
    run_from (suc n) id r =
        and_then (charged step_capped (charge_step r.usage budget) r)
          (λ _ r'. visit (run_from n) id (find_node id flow) r')

    -- What `FlowEngine::run` starts from.
    abbrev pub started : W → FlowState → Run W
    started w st = record { world = w; state = st; usage = no_usage }

    unfoldable pub run_valid : ℕ → Option FlowError → Run W → Run W × Fallible (FlowOutcome Patch)
    run_valid fuel (some e) r = (r, Fallible.err e)
    run_valid fuel none r = run_from fuel flow.entry r

    -- `FlowEngine::run`, with fuel for every step that the budget allows and one more
    unfoldable pub run : W → FlowState → Run W × Fallible (FlowOutcome Patch)
    run w st = run_valid (suc budget.max_steps) (validate flow) (started w st)
