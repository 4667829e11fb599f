-- ===== src/Kernel/Jobs.antt =====
-- The job half of the kernel (`is_runnable_job`, `apply_job` and `drain_ready` of
-- crates/crustcore-kernel/src/kernel.rs).
pub mod Frame
use crust_core.Prelude.{
  ℕ, zero, suc, ◌==◌, if◌then◌else◌, is_some, Bool, true, false, not, ◌&&◌, ◌||◌, Option, none,
  some, List, [], ◌∷◌, ◌++◌,
}
use crust_core.Prelude.Arena.{map_where}
use crust_core.Types.Word.{TaskId, JobId, LeaseOwner}
use crust_core.Types.Status.{TaskStatus, JobStatus, is_terminal_job}
use crust_core.Kernel.Event.{
  EventKind, Event, Action, job_queued, job_leased, model_request_started, tool_call_started,
  tool_call_completed, sandbox_started, command_started, command_output_captured, command_completed,
  task_failed, task_killed, request_model,
}
use crust_core.Kernel.State.{
  Kernel, JobEntry, new_job, LeaseState, refresh, is_expired_at, find_job, update_job, task_status,
  ready_drain_max,
}
use crust_core.Kernel.Tables.{JobTransition, job_next}

-- `matches!(status, JobStatus::Leased | JobStatus::Running)`
abbrev pub is_runnable : JobStatus → Bool
is_runnable JobStatus.leased = true
is_runnable JobStatus.running = true
is_runnable _ = false

-- the statuses under which a lease is held
abbrev pub is_active : JobStatus → Bool
is_active JobStatus.leased = true
is_active JobStatus.running = true
is_active JobStatus.heartbeat_missing = true
is_active _ = false

abbrev pub is_retrying : JobStatus → Bool
is_retrying JobStatus.retrying = true
is_retrying _ = false

-- The test of `is_runnable_job` on one record.
abbrev pub runs_for : JobId → TaskId → JobEntry → Bool
runs_for jid tid j = j.id == jid && (j.task == tid && is_runnable j.status)

unfoldable pub any_runs_for : JobId → TaskId → List JobEntry → Bool
any_runs_for jid tid [] = false
any_runs_for jid tid (j ∷ js) = runs_for jid tid j || any_runs_for jid tid js

-- `Kernel::is_runnable_job`
unfoldable pub is_runnable_job : JobId → TaskId → Kernel → Bool
is_runnable_job jid tid k = any_runs_for jid tid k.jobs

-- `is_activity`
abbrev pub is_activity : EventKind → Bool
is_activity model_request_started = true
is_activity tool_call_started = true
is_activity command_started = true
is_activity sandbox_started = true
is_activity command_output_captured = true
is_activity command_completed = true
is_activity tool_call_completed = true
is_activity _ = false

abbrev pub is_job_leased : EventKind → Bool
is_job_leased job_leased = true
is_job_leased _ = false

-- Two owners that are both known and differ.
abbrev pub owners_differ : Option LeaseOwner → Option LeaseOwner → Bool
owners_differ (some a) (some b) = not (a == b)
owners_differ _ _ = false

abbrev moved_job : JobTransition → JobEntry → JobEntry
moved_job JobTransition.stay j = j
moved_job (JobTransition.move to) j = record j { status = to }

abbrev renewed : Event → JobEntry → LeaseState
renewed e j =
    if is_job_leased e.kind
    then refresh e.lease_owner e.timestamp
    else if is_activity e.kind && is_some j.lease.owner
    then refresh j.lease.owner e.timestamp
    else j.lease

-- The writes of `apply_job` to a live job: transition, lease, last event.
unfoldable pub advance : Event → JobEntry → JobEntry
advance e j = record (moved_job (job_next j.status e.kind) j) {
  lease = renewed e j;
  last_event = e.seq;
}

-- What the event does to a job that was found, by the guards of `apply_job` in order.
unfoldable pub touch_job : JobId → JobEntry → Event → Kernel → Kernel
touch_job jid j e k =
    if is_terminal_job j.status
    then k
    else if is_active j.status && owners_differ j.lease.owner e.lease_owner
    then k
    else if is_active j.status && is_expired_at j.lease e.timestamp
    then update_job jid (λ x. record x { status = JobStatus.expired }) k
    else if is_job_leased e.kind
    then record (update_job jid (advance e) k) { ready = k.ready ++ jid ∷ [] }
    else update_job jid (advance e) k

unfoldable pub touch_found : JobId → Option JobEntry → Event → Kernel → Kernel
touch_found jid none e k = k
touch_found jid (some j) e k = touch_job jid j e k

unfoldable pub touch_named : Option JobId → Event → Kernel → Kernel
touch_named none e k = k
touch_named (some jid) e k = touch_found jid (find_job jid k) e k

-- A `Retrying` job that is queued again.
abbrev requeue : JobEntry → JobEntry
requeue j = if is_retrying j.status then record j { status = JobStatus.queued } else j

-- The `JobQueued` arm.
unfoldable pub queue_found : JobId → TaskId → Option JobEntry → Event → Kernel → Kernel
queue_found jid tid none e k = record k { jobs = k.jobs ++ new_job jid tid e.seq ∷ [] }
queue_found jid tid (some j) e k = update_job jid requeue k

unfoldable pub queue_job : Option JobId → Option TaskId → Event → Kernel → Kernel
queue_job (some jid) (some tid) e k = queue_found jid tid (find_job jid k) e k
queue_job _ _ e k = k

-- The `TaskKilled` and `TaskFailed` arms end every live job of the task.
unfoldable pub end_jobs : JobStatus → Option TaskId → Kernel → Kernel
end_jobs to none k = k
end_jobs to (some tid) k = record k {
  jobs =
      map_where (λ j. j.task == tid && not (is_terminal_job j.status))
        (λ j. record j { status = to }) k.jobs;
}

unfoldable pub apply_kind : EventKind → Event → Kernel → Kernel
apply_kind job_queued e k = queue_job e.job_id e.task_id e k
apply_kind task_killed e k = end_jobs JobStatus.killed e.task_id k
apply_kind task_failed e k = end_jobs JobStatus.failed e.task_id k
apply_kind _ e k = touch_named e.job_id e k

-- `Kernel::apply_job`
unfoldable pub apply_job : Event → Kernel → Kernel
apply_job e k = apply_kind e.kind e k

abbrev pub is_running_task : Option TaskStatus → Bool
is_running_task (some TaskStatus.running) = true
is_running_task _ = false

abbrev pub model_for : Option JobEntry → JobId → Kernel → List Action
model_for none jid k = []
model_for (some j) jid k =
    if is_running_task (task_status j.task k) && is_runnable j.status
    then request_model jid ∷ []
    else []

-- The loop of `Kernel::drain_ready`.
unfoldable pub drain : ℕ → Kernel → Kernel × List Action
drain zero k = (k, [])
drain (suc n) k = elim k.ready [
  | [] ↦ (k, [])
  | jid ∷ rest ↦
      let k' = record k { ready = rest } in
      let (k'', later) = drain n k' in (k'', model_for (find_job jid k') jid k' ++ later)
]

-- `Kernel::drain_ready`
unfoldable pub drain_ready : Kernel → Kernel × List Action
drain_ready k = drain ready_drain_max k
