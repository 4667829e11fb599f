-- ===== src/Kernel/Approvals.antt =====
-- Requests and approvals (`classify_request`, `resolve_approval`, `set_blocked`,
-- `set_task_status` and `mint_approval` of crates/crustcore-kernel/src/kernel.rs). A handler
-- returns the kernel after it and the actions that it pushes. The task at the index `idx` of the
-- source is handed over as the record `t`, and is written through its id.
pub mod Tests
use crust_core.Prelude.{
  ltb, if◌then◌else◌, is_some_of, Bool, true, false, Option, none, some, List, [], ◌∷◌, ◌++◌,
}
use crust_core.Types.Word.{
  TaskId, JobId, ApprovalId, ToolCallId, saturating_add, saturating_add_u128,
}
use crust_core.Types.Status.{TaskStatus, ApprovalStatus, ApprovalResolution, Reversibility}
use crust_core.Policy.{PolicyDecision, classify, allow, deny, require_approval}
use crust_core.Kernel.Event.{Event, Action, is_user, run_tool, request_approval}
use crust_core.Kernel.State.{
  Kernel, TaskEntry, ApprovalEntry, BlockReason, policy_denied, approval_denied, approval_expired,
  risk_found, approval_ttl_ms, op_matches, find_approval, update_task, set_approval_status,
}
use crust_core.Kernel.Jobs.{is_runnable_job}

-- The writes of `set_blocked` to a task.
abbrev pub block : BlockReason → TaskEntry → TaskEntry
block reason t = record t {
  status = TaskStatus.blocked;
  block_reason = some reason;
  awaiting = none;
}

-- `Kernel::set_blocked`
abbrev pub set_blocked : TaskId → BlockReason → Kernel → Kernel
set_blocked tid reason k = update_task tid (block reason) k

-- The writes of `set_task_status` to a task that is not blocked by it.
abbrev pub enter : TaskStatus → TaskEntry → TaskEntry
enter to t = record t { status = to; block_reason = none; awaiting = none }

-- `Kernel::set_task_status`
unfoldable pub set_task_status : TaskId → TaskStatus → Kernel → Kernel
set_task_status tid TaskStatus.blocked k = set_blocked tid risk_found k
set_task_status tid to k = update_task tid (enter to) k

-- A tool run for the job, only if it is a runnable job of the task.
unfoldable pub run_if_runnable : Option JobId → TaskId → Kernel → List Action
run_if_runnable none tid k = []
run_if_runnable (some jid) tid k = if is_runnable_job jid tid k then run_tool jid ∷ [] else []

-- The writes of a granted wait to a task.
abbrev pub await_approval : ApprovalId → TaskEntry → TaskEntry
await_approval aid t = record t { awaiting = some aid; status = TaskStatus.awaiting_approval }

-- The approval that the kernel mints: pending, and bound to the operation.
abbrev pub minted : ToolCallId → Event → TaskEntry → Kernel → ApprovalEntry
minted call e t k = record {
  id = k.next_approval;
  task = t.id;
  job = e.job_id;
  status = ApprovalStatus.pending;
  op = record { tool_call_id = some call };
  expires_at = saturating_add e.timestamp approval_ttl_ms;
}

unfoldable pub ask_for : Option ToolCallId → Event → TaskEntry → Kernel → Kernel × List Action
ask_for none e t k = (set_blocked t.id risk_found k, [])
ask_for (some call) e t k = (
  record (update_task t.id (await_approval k.next_approval) k) {
    next_approval = saturating_add_u128 k.next_approval 1;
    approvals = k.approvals ++ minted call e t k ∷ [];
  },
  request_approval k.next_approval ∷ [],
)

-- The `RequireApproval` arm: at most one pending approval for a task.
unfoldable pub ask_once : Option ApprovalId → Event → TaskEntry → Kernel → Kernel × List Action
ask_once (some _) e t k = (k, [])
ask_once none e t k = ask_for e.tool_call_id e t k

unfoldable pub act_on : PolicyDecision → Event → TaskEntry → Kernel → Kernel × List Action
act_on allow e t k = (k, run_if_runnable e.job_id t.id k)
act_on (require_approval _) e t k = ask_once t.awaiting e t k
act_on (deny _) e t k = (set_blocked t.id policy_denied k, [])

-- `event.reversibility.unwrap_or(Reversibility::Irreversible)`
abbrev pub or_irreversible : Option Reversibility → Reversibility
or_irreversible none = Reversibility.irreversible
or_irreversible (some r) = r

-- `Kernel::classify_request`
unfoldable pub classify_request : Event → TaskEntry → Kernel → Kernel × List Action
classify_request e t k = act_on (classify k.policy (or_irreversible e.reversibility)) e t k

-- The `match event.resolution` of `resolve_approval`.
unfoldable pub settle :
    Option ApprovalResolution → ApprovalEntry → TaskEntry → Kernel → Kernel × List Action
settle (some ApprovalResolution.approve) a t k =
    let k' =
      update_task t.id (enter TaskStatus.running)
        (set_approval_status a.id ApprovalStatus.approved k) in
    (k', run_if_runnable a.job t.id k')
settle (some ApprovalResolution.deny) a t k =
    (set_blocked t.id approval_denied (set_approval_status a.id ApprovalStatus.denied k), [])
settle none a t k = (k, [])

abbrev pub is_pending : ApprovalStatus → Bool
is_pending ApprovalStatus.pending = true
is_pending _ = false

-- The guards of `resolve_approval` on the approval that was found.
unfoldable pub resolve_found :
    Option ApprovalEntry → Event → TaskEntry → Kernel → Kernel × List Action
resolve_found none e t k = (k, [])
resolve_found (some a) e t k =
    if is_pending a.status
    then if op_matches a.op e.tool_call_id
      then if ltb a.expires_at e.timestamp
        then (
          set_blocked t.id approval_expired (set_approval_status a.id ApprovalStatus.expired k),
          [],
        )
        else settle e.resolution a t k
      else (k, [])
    else (k, [])

unfoldable pub resolve_named : Option ApprovalId → Event → TaskEntry → Kernel → Kernel × List Action
resolve_named none e t k = (k, [])
resolve_named (some aid) e t k =
    if is_some_of t.awaiting aid then resolve_found (find_approval aid k) e t k else (k, [])

-- `Kernel::resolve_approval`
unfoldable pub resolve_approval : Event → TaskEntry → Kernel → Kernel × List Action
resolve_approval e t k = if is_user e.actor then resolve_named e.approval_id e t k else (k, [])
