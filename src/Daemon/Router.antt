-- ===== src/Daemon/Router.antt =====
-- The router (router.rs).
use crust_core.Prelude.{
  ℕ, ◌&&◌, ◌||◌, leb, if◌then◌else◌, Bool, true, false, List, [], ◌∷◌, ◌++◌, length,
}
use crust_core.Daemon.Task.{
  RiskTier, low, standard, critical, at_least, ExecutorKind, native, claude_code, kind_eq,
  TaskShape, feature, ui_change, docs_only, workflow_change, security_sensitive,
}

-- `MIN_FANOUT_CONTEXT_BUDGET`
abbrev pub min_fanout_context_budget : ℕ
min_fanout_context_budget = 2

-- `MAX_FANOUT`
abbrev pub max_fanout : ℕ
max_fanout = 2

pub data BlockedReason : Type 0 where
  workflow_change_blocked no_executor_configured : BlockedReason

pub data RoutingDecision : Type 0 where
  single_executor : ExecutorKind → RoutingDecision
  fan_out : List ExecutorKind → RoutingDecision
  requires_plan : RoutingDecision
  blocked : BlockedReason → RoutingDecision

-- `slice::contains`
unfoldable pub has_kind : ExecutorKind → List ExecutorKind → Bool
has_kind k [] = false
has_kind k (x ∷ xs) = kind_eq x k || has_kind k xs

-- `pick_single`, of a list that is not empty: `configured[0]` is the first argument.
unfoldable pub pick_single : ExecutorKind → List ExecutorKind → ExecutorKind
pick_single x xs =
    if has_kind native (x ∷ xs)
    then native
    else if has_kind claude_code (x ∷ xs)
    then claude_code
    else x

-- The loop of `pick_fanout`.
unfoldable pub pick_from : List ExecutorKind → List ExecutorKind → List ExecutorKind
pick_from [] out = out
pick_from (k ∷ ks) out =
    let more = pick_from ks (if has_kind k out then out else out ++ (k ∷ [])) in
    if leb max_fanout (length out) then out else more

-- `pick_fanout`
abbrev pub pick_fanout : List ExecutorKind → List ExecutorKind
pick_fanout configured = pick_from configured []

abbrev pub is_workflow : TaskShape → Bool
is_workflow workflow_change = true
is_workflow _ = false

abbrev pub is_sensitive : TaskShape → Bool
is_sensitive security_sensitive = true
is_sensitive _ = false

abbrev pub is_docs : TaskShape → Bool
is_docs docs_only = true
is_docs _ = false

abbrev pub is_feature : TaskShape → Bool
is_feature feature = true
is_feature ui_change = true
is_feature _ = false

-- Step 5 of `decide_routing`, and the default.
unfoldable pub fan_or_single : Bool → ExecutorKind → List ExecutorKind → RoutingDecision
fan_or_single affordable x xs =
    let fleet = pick_fanout (x ∷ xs) in
    if affordable && leb 2 (length fleet) then fan_out fleet else single_executor (pick_single x xs)

-- Steps 3 to 5 of `decide_routing`.
unfoldable pub route_to :
    TaskShape → RiskTier → ℕ → ExecutorKind → List ExecutorKind → RoutingDecision
route_to task risk context_budget x xs =
    if is_sensitive task || at_least risk critical
    then requires_plan
    else if is_docs task || at_least low risk
    then single_executor (pick_single x xs)
    else fan_or_single
        (is_feature task && at_least standard risk && leb min_fanout_context_budget context_budget)
        x xs

abbrev pub on_configured : TaskShape → RiskTier → ℕ → List ExecutorKind → RoutingDecision
on_configured task risk context_budget [] = blocked no_executor_configured
on_configured task risk context_budget (x ∷ xs) = route_to task risk context_budget x xs

-- `decide_routing`
unfoldable pub decide_routing : TaskShape → RiskTier → ℕ → List ExecutorKind → RoutingDecision
decide_routing task risk context_budget configured =
    if is_workflow task
    then blocked workflow_change_blocked
    else on_configured task risk context_budget configured
