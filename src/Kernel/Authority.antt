-- ===== src/Kernel/Authority.antt =====
-- Which effects a step may ask for: every `RunTool` goes back to the policy or to a user, and every
-- `RequestModel` to a runnable job of a running task.
pub mod Handlers
pub mod Models
pub mod Steps
use crust_core.Prelude.{
  ℕ, zero, suc, ◌==◌, ltb, if◌then◌else◌, ◌≤◌, ◌≡◌, refl, sym, ap, ◌∙◌, subst, Bool-cases,
  Option-cases, List-cases, inl, inr, ◌⊎◌, is_some_of, Bool, true, false, ◌&&◌, Option, none, some,
  List, [], ◌∷◌, ◌++◌, All, All-append, arith,
}
use crust_core.Prelude.Arena.{find, key-find}
use crust_core.Types.Word.{TaskId, JobId, ApprovalId, ToolCallId}
use crust_core.Types.Status.{TaskStatus, ApprovalStatus, ApprovalResolution, is_terminal}
use crust_core.Types.Budget.{BudgetDelta, BudgetCheck, record_delta, within_budget, exhausted}
use crust_core.Policy.{PolicyDecision, PolicySnapshot, classify, allow, deny, require_approval}
use crust_core.Kernel.Event.{
  EventKind, Event, Actor, Action, approval_resolved, tool_call_requested,
  github_operation_requested, user, is_user, append_event, request_model, run_tool,
  request_approval, task_finished,
}
use crust_core.Kernel.State.{
  Kernel, TaskEntry, JobEntry, ApprovalEntry, approval_key, task_key, job_key, find_task, find_job,
  find_approval, task_status, update_task, op_matches,
}
use crust_core.Kernel.Jobs.{
  is_runnable, any_runs_for, is_runnable_job, is_running_task, apply_job, drain, drain_ready,
}
use crust_core.Kernel.Jobs.Frame.{SameButReady, drain-SameButReady, apply_job-SameButJobs}
use crust_core.Kernel.Approvals.{
  run_if_runnable, ask_for, ask_once, act_on, classify_request, settle, is_pending, resolve_found,
  resolve_named, resolve_approval, or_irreversible,
}
use crust_core.Kernel.Step.{
  is_running, is_working, touch, dispatch, conclude, finished, on_event, on_check, with_budget_of,
  on_budget, on_overdue, overdue, on_task, on_found, on_named, create_task, is_task_created,
  process, is_replay, count_event, step,
}

abbrev pub is_request : EventKind → Bool
is_request tool_call_requested = true
is_request github_operation_requested = true
is_request _ = false

-- The policy allowed the request outright, at a task that is at work.
pub record AllowedBy (e : Event) (p : PolicySnapshot) (t : TaskEntry) (jid : JobId) : Type 0 where
  pub requested : is_request e.kind ≡ true
  pub at_work : (t.status ≡ TaskStatus.running) ⊎ (t.status ≡ TaskStatus.integrating)
  pub allowed : classify p (or_irreversible e.reversibility) ≡ allow
  pub names_job : e.job_id ≡ some jid

-- A user approved, in time, the pending approval that the task awaits, and named its operation.
pub record GrantedBy (e : Event) (aps : List ApprovalEntry) (t : TaskEntry) (jid : JobId)
    : Type 0 where
  pub resolves : e.kind ≡ approval_resolved
  pub by_user : e.actor ≡ user
  pub approves : e.resolution ≡ some ApprovalResolution.approve
  pub approval : ApprovalEntry
  pub aid : ApprovalId
  pub on_record : find approval_key aid aps ≡ some approval
  pub names_approval : e.approval_id ≡ some aid
  pub awaited : t.awaiting ≡ some aid
  pub is_open : approval.status ≡ ApprovalStatus.pending
  pub call : ToolCallId
  pub bound_to : approval.op.tool_call_id ≡ some call
  pub names_call : e.tool_call_id ≡ some call
  pub in_time : e.timestamp ≤ approval.expires_at
  pub names_job : approval.job ≡ some jid

-- What stands behind an action that a handler pushes, `k'` being the kernel after it.
abbrev pub Released :
    Event → PolicySnapshot → List ApprovalEntry → TaskEntry → Kernel → Action → Type 0
Released e p aps t k' (run_tool jid) =
    (is_runnable_job jid t.id k' ≡ true) × (AllowedBy e p t jid ⊎ GrantedBy e aps t jid)
Released e p aps t k' (request_approval _) = Unit
Released e p aps t k' _ = ⊥

abbrev pub AllReleased :
    Event → PolicySnapshot → List ApprovalEntry → TaskEntry → Kernel × List Action → Type 0
AllReleased e p aps t r = All (Released e p aps t r.0) r.1

-- What stands behind an action of a whole step, from `k` to `k'`.
abbrev pub IsAuthorized : Event → Kernel → Kernel → Action → Type 0
IsAuthorized e k k' (run_tool jid) =
    (t : TaskEntry) × (e.task_id ≡ some t.id)
    × (find_task t.id k ≡ some t)
    × (is_runnable_job jid t.id k' ≡ true)
    × (AllowedBy e k.policy t jid ⊎ GrantedBy e k.approvals t jid)
IsAuthorized e k k' (request_model jid) =
    (j : JobEntry) × (find_job jid k' ≡ some j)
    × (is_runnable j.status ≡ true)
    × (task_status j.task k' ≡ some TaskStatus.running)
IsAuthorized e k k' (task_finished tid) =
    (s : TaskStatus) × (e.task_id ≡ some tid)
    × (task_status tid k' ≡ some s)
    × (is_terminal s ≡ true)
IsAuthorized e k k' (append_event tid) = tid ≡ e.task_id
IsAuthorized e k k' (request_approval aid) = Unit
