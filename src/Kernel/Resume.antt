-- ===== src/Kernel/Resume.antt =====
-- A task that waits for an approval, and the approval that resumes it.
pub mod Handlers
pub mod Guards
pub mod Steps
use crust_core.Prelude.{◌≡◌, ◌≢◌, ◌⊎◌, true, false, ltb, Option, none, some}
use crust_core.Types.Status.{TaskStatus, ApprovalStatus, ApprovalResolution}
use crust_core.Types.Budget.{Budget, BudgetDelta, within_budget, record_delta}
use crust_core.Kernel.Event.{Event, approval_resolved, is_user}
use crust_core.Kernel.State.{
  Kernel, TaskEntry, ApprovalEntry, find_task, find_approval, task_status, op_matches,
}
use crust_core.Kernel.Step.{is_replay}

-- What an event consumed leaves every axis of the budget below its limit.
abbrev pub Affords : Budget → Option BudgetDelta → Type 0
Affords b none = Unit {0}
Affords b (some d) = (record_delta b d).1 ≡ within_budget

abbrev pub charged : Budget → Option BudgetDelta → Budget
charged b none = b
charged b (some d) = (record_delta b d).0

-- The event is a user's approval of the pending approval `a` that the task `t` awaits: it names the
-- task, the approval and the operation, comes in time, is affordable, and is no replay.
pub record IsTimelyApproval (e : Event) (k : Kernel) (t : TaskEntry) (a : ApprovalEntry)
    : Type 0 where
  pub kind : e.kind ≡ approval_resolved
  pub user : is_user e.actor ≡ true
  pub task : e.task_id ≡ some t.id
  pub approval : e.approval_id ≡ some a.id
  pub resolution : e.resolution ≡ some ApprovalResolution.approve
  pub affordable : Affords t.budget e.budget_delta
  pub awaited : t.awaiting ≡ some a.id
  pub on_record : find_approval a.id k ≡ some a
  pub pending : a.status ≡ ApprovalStatus.pending
  pub operation : op_matches a.op e.tool_call_id ≡ true
  pub in_time : ltb a.expires_at e.timestamp ≡ false
  pub new : is_replay e k ≡ false

-- The task that was `t` is on record, running, awaits nothing, has no reason to be blocked, has
-- paid for the event and has it as its last; the approval that was `a` is approved, and has its
-- task, its job, its operation and its deadline.
pub record IsResumed (e : Event) (t : TaskEntry) (a : ApprovalEntry) (k' : Kernel) : Type 0 where
  pub entry : TaskEntry
  pub found : find_task t.id k' ≡ some entry
  pub runs : entry.status ≡ TaskStatus.running
  pub awaits_nothing : entry.awaiting ≡ none
  pub unblocked : entry.block_reason ≡ none
  pub budget : entry.budget ≡ charged t.budget e.budget_delta
  pub last_event : entry.last_event ≡ e.seq
  pub approval : ApprovalEntry
  pub on_record : find_approval a.id k' ≡ some approval
  pub approved : approval.status ≡ ApprovalStatus.approved
  pub same_task : approval.task ≡ a.task
  pub same_job : approval.job ≡ a.job
  pub same_op : approval.op ≡ a.op
  pub same_deadline : approval.expires_at ≡ a.expires_at

-- Either the event is such an approval of an `a` and the task is resumed, or it is no such approval
-- and the task does not run.
abbrev pub Verdict : Event → Kernel → TaskEntry → Kernel → Type 0
Verdict e k t k' =
    ((a : ApprovalEntry) × IsTimelyApproval e k t a × IsResumed e t a k')
    ⊎ (((a : ApprovalEntry) → ¬ IsTimelyApproval e k t a)
        × (task_status t.id k' ≢ some TaskStatus.running))
