-- ===== src/Kernel/State.antt =====
-- Kernel state (the records of crates/crustcore-kernel/src/state.rs, and `Kernel` of kernel.rs).
use crust_core.Prelude.{ℕ, ◌==◌, ltb, Bool, false, Option, none, some, List, []}
use crust_core.Prelude.Arena.{find, modify}
use crust_core.Types.Word.{
  TaskId, JobId, EventSeq, ApprovalId, ToolCallId, LeaseOwner, Timestamp, first, epoch,
  saturating_add,
}
use crust_core.Types.Status.{TaskStatus, JobStatus, ApprovalStatus}
use crust_core.Types.Budget.{BudgetAxis, Budget}
use crust_core.Policy.{PolicySnapshot}

-- `LEASE_TTL_MS`
abbrev pub lease_ttl_ms : ℕ
lease_ttl_ms = 60000

-- `READY_DRAIN_MAX`
abbrev pub ready_drain_max : ℕ
ready_drain_max = 1

-- `APPROVAL_TTL_MS`
abbrev pub approval_ttl_ms : ℕ
approval_ttl_ms = 300000

pub data BlockReason : Type 0 where
  budget_exhausted : BudgetAxis → BlockReason
  policy_denied approval_denied approval_expired risk_found : BlockReason

pub record TaskEntry : Type 0 where
  pub id : TaskId
  pub status : TaskStatus
  pub budget : Budget
  pub last_event : EventSeq
  pub awaiting : Option ApprovalId
  pub block_reason : Option BlockReason

-- `TaskEntry::new`
abbrev pub new_task : TaskId → Budget → EventSeq → TaskEntry
new_task id budget seq = record {
  id = id;
  status = TaskStatus.created;
  budget = budget;
  last_event = seq;
  awaiting = none;
  block_reason = none;
}

pub record LeaseState : Type 0 where
  pub owner : Option LeaseOwner
  pub expires_at : Timestamp
  pub heartbeat_at : Timestamp

-- `LeaseState::unleased`
abbrev pub unleased : LeaseState
unleased = record { owner = none; expires_at = epoch; heartbeat_at = epoch }

-- `LeaseState::refresh`, which overwrites every field
abbrev pub refresh : Option LeaseOwner → Timestamp → LeaseState
refresh owner now = record {
  owner = owner;
  expires_at = saturating_add now lease_ttl_ms;
  heartbeat_at = now;
}

-- `LeaseState::is_expired_at`
abbrev pub is_expired_at : LeaseState → Timestamp → Bool
is_expired_at l now = ltb l.expires_at now

pub record JobEntry : Type 0 where
  pub id : JobId
  pub task : TaskId
  pub status : JobStatus
  pub lease : LeaseState
  pub last_event : EventSeq

-- `JobEntry::new`
abbrev pub new_job : JobId → TaskId → EventSeq → JobEntry
new_job id task seq = record {
  id = id;
  task = task;
  status = JobStatus.queued;
  lease = unleased;
  last_event = seq;
}

pub record ApprovalOp : Type 0 where
  pub tool_call_id : Option ToolCallId

abbrev same_call : Option ToolCallId → Option ToolCallId → Bool
same_call (some bound) (some given) = bound == given
same_call _ _ = false

-- `ApprovalOp::matches`
abbrev pub op_matches : ApprovalOp → Option ToolCallId → Bool
op_matches op given = same_call op.tool_call_id given

pub record ApprovalEntry : Type 0 where
  pub id : ApprovalId
  pub task : TaskId
  pub job : Option JobId
  pub status : ApprovalStatus
  pub op : ApprovalOp
  pub expires_at : Timestamp

pub record Kernel : Type 0 where
  pub next_seq : EventSeq
  pub applied_through : EventSeq
  pub policy : PolicySnapshot
  pub next_approval : ApprovalId
  pub tasks : List TaskEntry
  pub jobs : List JobEntry
  pub approvals : List ApprovalEntry
  pub ready : List JobId

-- `Kernel::new`
unfoldable pub new : PolicySnapshot → Kernel
new policy = record {
  next_seq = first;
  applied_through = first;
  policy = policy;
  next_approval = 1;
  tasks = [];
  jobs = [];
  approvals = [];
  ready = [];
}

abbrev pub task_key : TaskEntry → ℕ
task_key t = t.id

abbrev pub job_key : JobEntry → ℕ
job_key j = j.id

abbrev pub approval_key : ApprovalEntry → ℕ
approval_key a = a.id

-- `Kernel::task` and `Kernel::task_index`
abbrev pub find_task : TaskId → Kernel → Option TaskEntry
find_task id k = find task_key id k.tasks

-- `Kernel::job` and `Kernel::job_index`
abbrev pub find_job : JobId → Kernel → Option JobEntry
find_job id k = find job_key id k.jobs

-- `Kernel::approval` and `Kernel::approval_index`
abbrev pub find_approval : ApprovalId → Kernel → Option ApprovalEntry
find_approval id k = find approval_key id k.approvals

-- `Kernel::task_status`
abbrev pub task_status : TaskId → Kernel → Option TaskStatus
task_status id k = elim (find_task id k) [ none ↦ none | some t ↦ some t.status ]

-- `self.tasks[idx] = f(self.tasks[idx])`
abbrev pub update_task : TaskId → (TaskEntry → TaskEntry) → Kernel → Kernel
update_task id f k = record k { tasks = modify task_key id f k.tasks }

abbrev pub update_job : JobId → (JobEntry → JobEntry) → Kernel → Kernel
update_job id f k = record k { jobs = modify job_key id f k.jobs }

-- `self.approvals[aidx].status = s`
abbrev pub set_approval_status : ApprovalId → ApprovalStatus → Kernel → Kernel
set_approval_status id s k = record k {
  approvals = modify approval_key id (λ a. record a { status = s }) k.approvals;
}
