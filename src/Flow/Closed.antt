-- ===== src/Flow/Closed.antt =====
-- What `validate` establishes: the entry exists, and so does every target of every node.
use crust_core.Prelude.{
  ◌≡◌, refl, subst, arith, true, Option-cases, Bool-cases, inl, inr, Option, none, some, List, [],
  ◌∷◌, All,
}
use mathlib.Core.Option.{some-injective}
use crust_core.Prelude.Arena.{find, find-All}
use crust_core.Flow.Graph.{
  NodeId, Node, Flow, Entry, entry_key, node_of, find_node, contains, node_targets, missing_target,
  validate_nodes, validate,
}

abbrev pub Present : Flow → NodeId → Type 0
Present flow id = contains id flow ≡ true

pub record IsClosed (flow : Flow) : Type 0 where
  pub entry : Present flow flow.entry
  pub targets :
      (id : NodeId) (node : Node)
      → find_node id flow ≡ some node
      → All (Present flow) (node_targets node)

module _ (flow : Flow) where
  missing_target-Present :
      (ts : List NodeId) → missing_target flow ts ≡ none → All (Present flow) ts
  unfolding missing_target
  missing_target-Present [] h = tt
  missing_target-Present (t ∷ ts) h = elim (Bool-cases (contains t flow)) [
    | inl e ↦ (e, missing_target-Present ts (rw e at h))
    | inr e ↦ ground arith
  ]

  abbrev HasTargets : Entry → Type 0
  HasTargets n = All (Present flow) (node_targets n.node)

  validate_nodes-HasTargets : (ns : List Entry) → validate_nodes flow ns ≡ none → All HasTargets ns
  unfolding validate_nodes
  validate_nodes-HasTargets [] h = tt
  validate_nodes-HasTargets (n ∷ ns) h =
      elim (Option-cases (missing_target flow (node_targets n.node))) [
        | inl e ↦ (
          missing_target-Present (node_targets n.node) e,
          validate_nodes-HasTargets ns (rw e at h),
        )
        | inr (t, e) ↦ ground arith
      ]

  node_of-HasTargets :
      (o : Option Entry) (node : Node)
      → ((n : Entry) → o ≡ some n → HasTargets n)
      → node_of o ≡ some node
      → All (Present flow) (node_targets node)
  node_of-HasTargets none node h found = ground arith
  node_of-HasTargets (some n) node h found =
      subst (λ x. All (Present flow) (node_targets x)) (some-injective _ _ found) (h n refl)

  pub validate-IsClosed : validate flow ≡ none → IsClosed flow
  unfolding validate
  validate-IsClosed h = elim (Bool-cases (contains flow.entry flow)) [
    | inl e ↦ record {
      entry = e;
      targets = λ id node found.
          node_of-HasTargets (find entry_key id flow.nodes) node
            (λ n at.
              find-All HasTargets entry_key id flow.nodes at
                (validate_nodes-HasTargets flow.nodes (rw e at h)))
            found;
    }
    | inr e ↦ ground arith
  ]
