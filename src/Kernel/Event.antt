-- ===== src/Kernel/Event.antt =====
-- Kernel events and actions (crates/crustcore-kernel/src/event.rs, action.rs).
use crust_core.Prelude.{Bool, true, false, Option, none, some}
use crust_core.Types.Word.{
  TaskId, JobId, EventSeq, ApprovalId, ToolCallId, LeaseOwner, Timestamp, first, epoch,
}
use crust_core.Types.Status.{Reversibility, ApprovalResolution}
use crust_core.Types.Budget.{Budget, BudgetDelta}

pub data EventKind : Type 0 where
  task_created task_planned job_queued job_leased model_request_started : EventKind
  model_output_received tool_call_requested tool_call_approved tool_call_denied : EventKind
  tool_call_started tool_call_completed sandbox_started command_started : EventKind
  command_output_captured command_completed patch_proposed patch_verified : EventKind
  patch_rejected approval_requested approval_resolved user_message_queued : EventKind
  user_steer_received github_operation_requested github_operation_completed : EventKind
  secret_requested secret_handle_stored risk_detected task_completed task_failed : EventKind
  task_killed : EventKind

pub data Actor : Type 0 where
  kernel user model subagent external_worker adapter : Actor

pub data Visibility : Type 0 where
  model_visible internal_only : Visibility

pub record Event : Type 0 where
  pub kind : EventKind
  pub seq : EventSeq
  pub timestamp : Timestamp
  pub task_id : Option TaskId
  pub job_id : Option JobId
  pub actor : Actor
  pub visibility : Visibility
  pub reversibility : Option Reversibility
  pub approval_id : Option ApprovalId
  pub tool_call_id : Option ToolCallId
  pub resolution : Option ApprovalResolution
  pub budget_delta : Option BudgetDelta
  pub budget : Option Budget
  pub lease_owner : Option LeaseOwner

-- `Event::base`
abbrev pub base : EventKind → Actor → Visibility → Event
base kind actor visibility = record {
  kind = kind;
  seq = first;
  timestamp = epoch;
  task_id = none;
  job_id = none;
  actor = actor;
  visibility = visibility;
  reversibility = none;
  approval_id = none;
  tool_call_id = none;
  resolution = none;
  budget_delta = none;
  budget = none;
  lease_owner = none;
}

-- `Event::internal`
abbrev pub internal : EventKind → Event
internal kind = base kind kernel internal_only

-- `Event::inbound`
abbrev pub inbound : EventKind → EventSeq → Actor → Event
inbound kind seq actor = record (base kind actor model_visible) { seq = seq }

abbrev pub with_timestamp : Event → Timestamp → Event
with_timestamp e t = record e { timestamp = t }

abbrev pub with_task : Event → TaskId → Event
with_task e t = record e { task_id = some t }

abbrev pub with_job : Event → JobId → Event
with_job e j = record e { job_id = some j }

abbrev pub with_reversibility : Event → Reversibility → Event
with_reversibility e r = record e { reversibility = some r }

abbrev pub with_approval : Event → ApprovalId → Event
with_approval e a = record e { approval_id = some a }

abbrev pub with_tool_call : Event → ToolCallId → Event
with_tool_call e c = record e { tool_call_id = some c }

abbrev pub with_resolution : Event → ApprovalResolution → Event
with_resolution e r = record e { resolution = some r }

abbrev pub with_budget_delta : Event → BudgetDelta → Event
with_budget_delta e d = record e { budget_delta = some d }

abbrev pub with_budget : Event → Budget → Event
with_budget e b = record e { budget = some b }

abbrev pub with_lease_owner : Event → LeaseOwner → Event
with_lease_owner e o = record e { lease_owner = some o }

-- `Event::task_created`
abbrev pub task_created_event : EventSeq → Actor → TaskId → Budget → Event
task_created_event seq actor tid b = with_budget (with_task (inbound task_created seq actor) tid) b

-- `event.actor == Actor::User`
abbrev pub is_user : Actor → Bool
is_user user = true
is_user _ = false

pub data Action : Type 0 where
  append_event : Option TaskId → Action
  request_model : JobId → Action
  run_tool : JobId → Action
  request_approval : ApprovalId → Action
  task_finished : TaskId → Action
