-- ===== src/Flow/Contract/Nodes.antt =====
-- Each node of a closed flow keeps a contract, if what it runs on less fuel does.
use Prim.Native.String.{String}
use crust_core.Prelude.{
  ℕ, zero, suc, min, length, ◌≡◌, refl, Bool-cases, ◌⊎◌, inl, inr, Option, none, some, List, [],
  ◌∷◌, ◌++◌, if_intro, arith, All, All-split,
}
use crust_core.Flow.Budget.{FlowBudget, charge_model, charge_fanout, u32_max}
use crust_core.Flow.State.{Text, Predicate, eval}
use crust_core.Flow.Graph.{NodeId, ToolSpec, Node, Flow, FlowError, find_node, node_targets}
use crust_core.Flow.Drivers.{
  FlowEngine, VerifyOutcome, FlowDrivers, FlowOutcome, Fallible, Run, and_then, gate_tool, Next,
  goto, stop, over_budget, charged, Go, subgraph, verdict,
}
use crust_core.Flow.Engine.{
  store, answer, model_answer, run_subgraph, run_children, run_parallel, run_loop, run_gated,
  on_node, visit, child_done, body_done, follow,
}
use crust_core.Flow.Closed.{Present, IsClosed}
use crust_core.Flow.Contract.{
  Post, Laws, Good, GoodSubgraph, GoodNext, Outcome, Continues, Goes, chain, charge, subgraph-Good,
}

module _ {W Patch : Type 0} (eng : FlowEngine) (drivers : FlowDrivers W Patch) (flow : Flow)
    (budget : FlowBudget) (I : ℕ → Run W → Type 0) (E : FlowError → Type 0) (F : Type 0)
    (P : Patch → Type 0) where
  module _ (laws : Laws eng drivers flow budget I E F P) where
    store-Continues :
        (n : ℕ) (key raw : Text) (next : NodeId) (r : Run W)
        → Present flow next
        → I n r
        → Continues eng drivers flow budget I E F P n (store eng key raw next r)
    store-Continues n key raw next r there i = (laws.stored n key raw r i, there)

    answer-Continues :
        (n : ℕ) (key : Text) (next : NodeId) (a : Text ⊎ String) (r : Run W)
        → Present flow next
        → I n r
        → Continues eng drivers flow budget I E F P n (answer eng key next a r)
    answer-Continues n key next (inl raw) r there i = store-Continues n key raw next r there i
    answer-Continues n key next (inr e) r there i = (i, laws.broken e)

    model_answer-Continues :
        (n : ℕ) (key : Text) (next : NodeId) (a : (Text × ℕ) ⊎ String) (r : Run W)
        → Present flow next
        → I n r
        → Continues eng drivers flow budget I E F P n (model_answer eng budget key next a r)
    unfolding model_answer
    model_answer-Continues n key next (inr e) r there i = (i, laws.broken e)
    model_answer-Continues n key next (inl (raw, c)) r there i =
        chain eng drivers flow budget I E F P n (λ _ x. I n x)
          (λ next' x. I n x × GoodNext eng drivers flow budget I E F P next')
          (charged over_budget (charge_model r.usage c budget) r) (λ _ x. store eng key raw next x)
          (charge eng drivers flow budget I E F P n (I n) over_budget
            (charge_model r.usage c budget) r i laws.breached (λ u e. laws.cost n c r u i e))
          (λ _ x ix. store-Continues n key raw next x there ix)

    module _ (n : ℕ) (go : Go W Patch) (goes : Goes eng drivers flow budget I E F P n go) where
      run_subgraph-Good :
          (start : NodeId) (r : Run W)
          → Present flow start
          → I n r
          → Post
              (I n)
              E
              F
              (λ o x. I n x × GoodSubgraph eng drivers flow budget I E F P o)
              (run_subgraph go start r)
      unfolding run_subgraph
      run_subgraph-Good start r there i =
          chain eng drivers flow budget I E F P n
            (λ o x. I n x × Good eng drivers flow budget I E F P o)
            (λ o x. I n x × GoodSubgraph eng drivers flow budget I E F P o) (go start r)
            (λ o x. (x, Fallible.ok (subgraph o))) (goes start r there i)
            (λ o x h. (h.0, subgraph-Good eng drivers flow budget I E F P o h.1))

      child_done-Keeps :
          (o : Option (FlowOutcome Patch)) (rest : Run W → Run W × Fallible (Unit {0})) (r : Run W)
          → I n r
          → Post (I n) E F (λ _ x. I n x) (rest r)
          → Post (I n) E F (λ _ x. I n x) (child_done o rest r)
      child_done-Keeps none rest r i h = h
      child_done-Keeps (some o) rest r i h = (i, laws.broken _)

      run_children-Keeps :
          (cs : List NodeId) (r : Run W)
          → All (Present flow) cs
          → I n r
          → Post (I n) E F (λ _ x. I n x) (run_children go cs r)
      unfolding run_children
      run_children-Keeps [] r there i = i
      run_children-Keeps (c ∷ cs) r there i =
          chain eng drivers flow budget I E F P n
            (λ o x. I n x × GoodSubgraph eng drivers flow budget I E F P o) (λ _ x. I n x)
            (run_subgraph go c r) (λ o x. child_done o (run_children go cs) x)
            (run_subgraph-Good c r there.0 i)
            (λ o x h.
              child_done-Keeps o (run_children go cs) x h.0 (run_children-Keeps cs x there.1 h.0))

      run_parallel-Keeps :
          (cs : List NodeId) (r : Run W)
          → All (Present flow) cs
          → I n r
          → Post (I n) E F (λ _ x. I n x) (run_parallel go budget cs r)
      unfolding run_parallel
      run_parallel-Keeps cs r there i =
          let c = min (length cs) u32_max in
          chain eng drivers flow budget I E F P n (λ _ x. I n x) (λ _ x. I n x)
            (charged over_budget (charge_fanout r.usage c budget) r) (λ _ x. run_children go cs x)
            (charge eng drivers flow budget I E F P n (I n) over_budget
              (charge_fanout r.usage c budget) r i laws.breached (λ u e. laws.fanout n c r u i e))
            (λ _ x ix. run_children-Keeps cs x there ix)

      body_done-Continues :
          (o : Option (FlowOutcome Patch)) (rest : Run W → Run W × Fallible (Next Patch))
          (r : Run W)
          → I n r
          → GoodSubgraph eng drivers flow budget I E F P o
          → Continues eng drivers flow budget I E F P n (rest r)
          → Continues eng drivers flow budget I E F P n (body_done o rest r)
      body_done-Continues none rest r i g h = h
      body_done-Continues (some o) rest r i g h = (i, g)

      run_loop-Continues :
          (body : NodeId) (until : Predicate) (next : NodeId) (left iter : ℕ) (r : Run W)
          → Present flow body
          → Present flow next
          → I n r
          → Continues eng drivers flow budget I E F P n (run_loop go body until next left iter r)
      unfolding run_loop
      run_loop-Continues body until next zero iter r hb hn i = (laws.counted n iter r i, hn)
      run_loop-Continues body until next (suc left) iter r hb hn i =
          elim (Bool-cases (eval until r.state)) [
            | inl e ↦ rw e (laws.counted n iter r i, hn)
            | inr e ↦ rw e (
                chain eng drivers flow budget I E F P n
                  (λ o x. I n x × GoodSubgraph eng drivers flow budget I E F P o)
                  (λ nx x. I n x × GoodNext eng drivers flow budget I E F P nx)
                  (run_subgraph go body r)
                  (λ o x. body_done o (run_loop go body until next left (suc iter)) x)
                  (run_subgraph-Good body r hb i)
                  (λ o x h.
                    body_done-Continues o (run_loop go body until next left (suc iter)) x h.0 h.1
                      (run_loop-Continues body until next left (suc iter) x hb hn h.0)))
          ]

      parallel-Continues :
          (cs : List NodeId) (join_at : NodeId) (r : Run W)
          → All (Present flow) (cs ++ join_at ∷ [])
          → I n r
          → Continues eng drivers flow budget I E F P n
              (and_then (run_parallel go budget cs r) (λ _ x. (x, Fallible.ok (goto join_at))))
      parallel-Continues cs join_at r there i =
          let s = All-split (Present flow) cs (join_at ∷ []) there in
          chain eng drivers flow budget I E F P n (λ _ x. I n x)
            (λ nx x. I n x × GoodNext eng drivers flow budget I E F P nx)
            (run_parallel go budget cs r) (λ _ x. (x, Fallible.ok (goto join_at)))
            (run_parallel-Keeps cs r s.0 i) (λ _ x ix. (ix, s.1.0))

      gated-Continues :
          (id : NodeId) (o : Option FlowError) (spec : ToolSpec) (args : String) (key : Text)
          (next : NodeId) (r : Run W)
          → gate_tool eng id spec r.state ≡ o
          → Present flow next
          → I n r
          → Continues eng drivers flow budget I E F P n
              (run_gated eng drivers flow budget o spec args key next r)
      unfolding run_gated
      gated-Continues id none spec args key next r g there i =
          let d = drivers.run_tool spec args r.world in
          answer-Continues n key next d.1 (record r { world = d.0 }) there
            (laws.ran n id spec args r g i)
      gated-Continues id (some e) spec args key next r g there i = (i, laws.refused id spec r e g)

      verdict-Good :
          (on_fail : NodeId) (o : VerifyOutcome Patch)
          → ((p : Patch) → o ≡ VerifyOutcome.verified p → P p)
          → Present flow on_fail
          → GoodNext eng drivers flow budget I E F P (verdict on_fail o)
      verdict-Good on_fail (VerifyOutcome.verified p) h there = h p refl
      verdict-Good on_fail (VerifyOutcome.failed s o) h there = there
      verdict-Good on_fail (VerifyOutcome.refused why) h there = there

      on_node-Continues :
          (id : NodeId) (node : Node) (r : Run W)
          → All (Present flow) (node_targets node)
          → I n r
          → Continues eng drivers flow budget I E F P n
              (on_node eng drivers flow budget go id node r)
      unfolding on_node node_targets
      on_node-Continues id (Node.model prompt key next) r there i =
          let d = drivers.run_model prompt r.world in
          model_answer-Continues n key next d.1 (record r { world = d.0 }) there.0
            (laws.asked n prompt r i)
      on_node-Continues id (Node.tool spec args key next) r there i =
          gated-Continues id (gate_tool eng id spec r.state) spec args key next r refl there.0 i
      on_node-Continues id (Node.verify on_fail) r there i = (
        laws.verified n r i,
        verdict-Good on_fail (drivers.run_verify r.world).1 (λ p e. laws.patched n r p i e) there.0,
      )
      on_node-Continues id (Node.review key next) r there i =
          let d = drivers.run_review r.world in
          answer-Continues n key next d.1 (record r { world = d.0 }) there.0 (laws.reviewed n r i)
      on_node-Continues id (Node.parallel cs width join_at) r there i =
          parallel-Continues cs join_at r there i
      on_node-Continues id (Node.loop_until body until cap next) r there i =
          run_loop-Continues body until next cap 0 r there.0 there.1.0 i
      on_node-Continues id (Node.route p if_true if_false) r there i =
          (i, if_intro (Present flow) (eval p r.state) there.0 there.1.0)
      on_node-Continues id (Node.join next) r there i = (i, there.0)
      on_node-Continues id Node.end_node r there i = (i, tt)

      follow-Outcome :
          (next : Next Patch) (r : Run W)
          → I n r
          → GoodNext eng drivers flow budget I E F P next
          → Outcome eng drivers flow budget I E F P n (follow eng drivers flow budget go next r)
      follow-Outcome (goto id) r i there = goes id r there i
      follow-Outcome (stop o) r i g = (i, g)

      pub visit-Outcome :
          (closed : IsClosed flow) (id : NodeId) (o : Option Node) (r : Run W)
          → find_node id flow ≡ o
          → Present flow id
          → I n r
          → Outcome eng drivers flow budget I E F P n (visit eng drivers flow budget go id o r)
      unfolding visit
      visit-Outcome closed id none r e there i = ground arith
      visit-Outcome closed id (some node) r e there i =
          chain eng drivers flow budget I E F P n
            (λ nx x. I n x × GoodNext eng drivers flow budget I E F P nx)
            (λ o x. I n x × Good eng drivers flow budget I E F P o)
            (on_node eng drivers flow budget go id node r)
            (λ nx x. follow eng drivers flow budget go nx x)
            (on_node-Continues id node r (closed.targets id node e) i)
            (λ nx x h. follow-Outcome nx x h.0 h.1)
