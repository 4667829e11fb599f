-- ===== src/Flow/Graph.antt =====
-- The graph of a flow (crates/crustcore-flow/src/graph.rs).
use Prim.Native.String.{String}
use crust_core.Prelude.{
  ℕ, Bool, true, is_some, if◌then◌else◌, Option, none, some, List, [], ◌∷◌, ◌++◌,
}
use crust_core.Prelude.Arena.{find}
use crust_core.Types.Status.{Reversibility, requires_approval}
use crust_core.Flow.State.{Text, Predicate}

abbrev pub NodeId : Type 0
NodeId = ℕ

pub record ToolSpec : Type 0 where
  pub name : String
  pub reversibility : Reversibility
  pub execution_capable : Bool

-- `ToolSpec::fail_closed`
abbrev pub fail_closed_tool : String → ToolSpec
fail_closed_tool name = record {
  name = name;
  reversibility = Reversibility.destructive;
  execution_capable = true;
}

-- `ToolSpec::requires_approval`
abbrev pub needs_approval : ToolSpec → Bool
needs_approval spec = requires_approval spec.reversibility

-- The fields of a node stand in the order of the source.
pub data Node : Type 0 where
  model : String → Text → NodeId → Node
  tool : ToolSpec → String → Text → NodeId → Node
  verify : NodeId → Node
  review : Text → NodeId → Node
  parallel : List NodeId → ℕ → NodeId → Node
  loop_until : NodeId → Predicate → ℕ → NodeId → Node
  route : Predicate → NodeId → NodeId → Node
  join : NodeId → Node
  end_node : Node

pub data FlowError : Type 0 where
  unknown_node : NodeId → FlowError
  no_entry : FlowError
  approval_required : NodeId → FlowError
  policy_denied : NodeId → String → FlowError
  driver_failed : String → FlowError
  budget_exceeded : String → FlowError
  step_cap_exceeded : FlowError

-- One entry of `BTreeMap<NodeId, Node>`.
pub record Entry : Type 0 where
  pub id : NodeId
  pub node : Node

pub record Flow : Type 0 where
  pub nodes : List Entry
  pub entry : NodeId

abbrev pub entry_key : Entry → ℕ
entry_key n = n.id

abbrev pub node_of : Option Entry → Option Node
node_of none = none
node_of (some n) = some n.node

-- `Flow::node`
abbrev pub find_node : NodeId → Flow → Option Node
find_node id flow = node_of (find entry_key id flow.nodes)

-- `self.nodes.contains_key(&id)`
abbrev pub contains : NodeId → Flow → Bool
contains id flow = is_some (find_node id flow)

-- `node_targets`
unfoldable pub node_targets : Node → List NodeId
node_targets (Node.model prompt key next) = next ∷ []
node_targets (Node.tool spec args key next) = next ∷ []
node_targets (Node.verify on_fail) = on_fail ∷ []
node_targets (Node.review key next) = next ∷ []
node_targets (Node.parallel children width join_at) = children ++ join_at ∷ []
node_targets (Node.loop_until body until cap next) = body ∷ next ∷ []
node_targets (Node.route p if_true if_false) = if_true ∷ if_false ∷ []
node_targets (Node.join next) = next ∷ []
node_targets Node.end_node = []

-- The inner loop of `validate`: the first target that is missing.
unfoldable pub missing_target : Flow → List NodeId → Option NodeId
missing_target flow [] = none
missing_target flow (t ∷ ts) = if contains t flow then missing_target flow ts else some t

abbrev pub or_missing : Option NodeId → Option FlowError → Option FlowError
or_missing none rest = rest
or_missing (some t) rest = some (unknown_node t)

-- The outer loop of `validate`.
unfoldable pub validate_nodes : Flow → List Entry → Option FlowError
validate_nodes flow [] = none
validate_nodes flow (n ∷ ns) =
    or_missing (missing_target flow (node_targets n.node)) (validate_nodes flow ns)

-- `Flow::validate`: `none` is `Ok(())`
unfoldable pub validate : Flow → Option FlowError
validate flow = if contains flow.entry flow then validate_nodes flow flow.nodes else some no_entry
