-- ===== src/Kernel/Step.antt =====
-- `Kernel::process` and `Kernel::step` (crates/crustcore-kernel/src/kernel.rs), and runs of steps.
use crust_core.Prelude.{
  ◌==◌, ltb, leb, if◌then◌else◌, is_some, Bool, true, false, not, ◌&&◌, Option, none, some, List,
  [], ◌∷◌, ◌++◌,
}
use crust_core.Types.Word.{TaskId, ApprovalId, first, next_saturating}
use crust_core.Types.Status.{TaskStatus, ApprovalStatus, is_terminal}
use crust_core.Types.Budget.{
  Budget, BudgetDelta, BudgetCheck, within_budget, exhausted, is_fully_bounded, record_delta,
}
use crust_core.Kernel.Event.{
  EventKind, Event, Action, task_created, tool_call_requested, approval_resolved,
  github_operation_requested, append_event, task_finished,
}
use crust_core.Kernel.State.{
  Kernel, TaskEntry, ApprovalEntry, new_task, budget_exhausted, approval_expired, find_task,
  find_approval, task_status, update_task, set_approval_status,
}
use crust_core.Kernel.Tables.{TaskTransition, task_next}
use crust_core.Kernel.Jobs.{apply_job, drain_ready}
use crust_core.Kernel.Approvals.{set_blocked, set_task_status, classify_request, resolve_approval}

-- `self.tasks[idx].last_event = event.seq`
abbrev pub touch : TaskId → Event → Kernel → Kernel
touch tid e k = update_task tid (λ t. record t { last_event = e.seq }) k

abbrev pub is_running : TaskStatus → Bool
is_running TaskStatus.running = true
is_running _ = false

abbrev pub is_working : TaskStatus → Bool
is_working TaskStatus.running = true
is_working TaskStatus.integrating = true
is_working _ = false

abbrev pub is_awaiting : TaskStatus → Bool
is_awaiting TaskStatus.awaiting_approval = true
is_awaiting _ = false

unfoldable pub by_table : TaskTransition → TaskId → Kernel → Kernel
by_table TaskTransition.stay tid k = k
by_table (TaskTransition.move to) tid k = set_task_status tid to k

-- The `match event.kind` of `process`.
unfoldable pub dispatch : EventKind → Event → TaskEntry → Kernel → Kernel × List Action
dispatch approval_resolved e t k = resolve_approval e t k
dispatch tool_call_requested e t k = if is_running t.status then classify_request e t k else (k, [])
dispatch github_operation_requested e t k =
    if is_working t.status then classify_request e t k else (k, [])
dispatch kind e t k = (by_table (task_next t.status kind) t.id k, [])

abbrev pub is_ended : Option TaskStatus → Bool
is_ended none = false
is_ended (some s) = is_terminal s

abbrev pub finished : TaskId → Kernel → List Action
finished tid k = if is_ended (task_status tid k) then task_finished tid ∷ [] else []

-- The end of `process`: the terminal notice, the last event and the ready queue.
unfoldable pub conclude : TaskId → Event → Kernel × List Action → Kernel × List Action
conclude tid e (k, acts) =
    let (k', drained) = drain_ready (touch tid e k) in (k', acts ++ (finished tid k ++ drained))

-- From `apply_job` on. It writes jobs only, so the task's record `t` is the one at `idx`.
unfoldable pub on_event : Event → TaskEntry → Kernel → Kernel × List Action
on_event e t k = conclude t.id e (dispatch e.kind e t (apply_job e k))

unfoldable pub on_check : BudgetCheck → Event → TaskEntry → Kernel → Kernel × List Action
on_check within_budget e t k = on_event e t k
on_check (exhausted axis) e t k = (touch t.id e (set_blocked t.id (budget_exhausted axis) k), [])

abbrev pub with_budget_of : Budget → TaskEntry → TaskEntry
with_budget_of b t = record t { budget = b }

-- The budget fold of `process`.
unfoldable pub on_budget : Option BudgetDelta → Event → TaskEntry → Kernel → Kernel × List Action
on_budget none e t k = on_event e t k
on_budget (some d) e t k =
    let (b, c) = record_delta t.budget d in
    on_check c e (with_budget_of b t) (update_task t.id (with_budget_of b) k)

abbrev passed : Option ApprovalEntry → Event → Bool
passed none e = false
passed (some a) e = ltb a.expires_at e.timestamp

-- The approval whose deadline the event shows to have passed.
unfoldable pub overdue : Option ApprovalId → Event → Kernel → Option ApprovalId
overdue none e k = none
overdue (some aid) e k = if passed (find_approval aid k) e then some aid else none

unfoldable pub on_overdue : Option ApprovalId → Event → TaskEntry → Kernel → Kernel × List Action
on_overdue (some aid) e t k = (
  touch t.id e
      (set_blocked t.id approval_expired (set_approval_status aid ApprovalStatus.expired k)),
  [],
)
on_overdue none e t k = on_budget e.budget_delta e t k

-- The task was found: the terminal guard, then the expiry sweep.
unfoldable pub on_task : Event → TaskEntry → Kernel → Kernel × List Action
on_task e t k =
    if is_terminal t.status
    then (touch t.id e k, [])
    else on_overdue (if is_awaiting t.status then overdue t.awaiting e k else none) e t k

unfoldable pub on_found : Option TaskEntry → Event → Kernel → Kernel × List Action
on_found none e k = (k, [])
on_found (some t) e k = on_task e t k

unfoldable pub on_named : Option TaskId → Event → Kernel → Kernel × List Action
on_named none e k = (k, [])
on_named (some tid) e k = on_found (find_task tid k) e k

-- The `TaskCreated` arm: a task that is new, with a budget that bounds every axis.
unfoldable pub create_task : Option TaskId → Option Budget → Event → Kernel → Kernel
create_task (some tid) (some b) e k =
    if is_some (find_task tid k)
    then k
    else if is_fully_bounded b
    then record k { tasks = k.tasks ++ new_task tid b e.seq ∷ [] }
    else k
create_task _ _ e k = k

abbrev pub is_task_created : EventKind → Bool
is_task_created task_created = true
is_task_created _ = false

-- `Kernel::process`
unfoldable pub process : Event → Kernel → Kernel × List Action
process e k =
    if is_task_created e.kind
    then (create_task e.task_id e.budget e k, [])
    else on_named e.task_id e k

-- `event.seq != FIRST && event.seq <= self.applied_through`
abbrev pub is_replay : Event → Kernel → Bool
is_replay e k = not (e.seq == first) && leb e.seq k.applied_through

-- The end of `step`: both sequence counters.
abbrev pub count_event : Event → Kernel → Kernel
count_event e k = record k {
  next_seq = next_saturating k.next_seq;
  applied_through =
      if not (e.seq == first) && ltb k.applied_through e.seq then e.seq else k.applied_through;
}

-- `Kernel::step`
unfoldable pub step : Event → Kernel → Kernel × List Action
step e k =
    let (k', acts) = process e k in
    if is_replay e k then (k, []) else (count_event e k', append_event e.task_id ∷ acts)

-- The kernel after a sequence of events, from any source and in any order.
unfoldable pub run : List Event → Kernel → Kernel
run [] k = k
run (e ∷ es) k = run es (step e k).0
