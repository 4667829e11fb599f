-- ===== src/Kernel/Counters.antt =====
-- `process` leaves the sequence counters and the policy alone.
use crust_core.Prelude.{
  ℕ, if◌then◌else◌, ◌≡◌, ◌∙◌, Option-cases, inl, inr, Option, none, some, List, arith,
}
use crust_core.Types.Status.{TaskStatus, ApprovalResolution}
use crust_core.Types.Budget.{
  BudgetDelta, BudgetCheck, within_budget, exhausted, record_delta, Budget,
}
use crust_core.Policy.{PolicyDecision, classify, allow}
use crust_core.Kernel.Event.{
  EventKind, Event, Action, approval_resolved, tool_call_requested, github_operation_requested,
}
use crust_core.Kernel.State.{Kernel, TaskEntry, ApprovalEntry, find_task, update_task}
use crust_core.Kernel.Tables.{TaskTransition, task_next}
use crust_core.Kernel.Jobs.{apply_job}
use crust_core.Kernel.Jobs.Frame.{apply_job-SameButJobs, drain_ready-SameButReady}
use crust_core.Kernel.Approvals.{
  set_task_status, ask_for, ask_once, act_on, classify_request, or_irreversible, settle,
  resolve_found, resolve_named, resolve_approval,
}
use crust_core.Kernel.Step.{
  touch, by_table, dispatch, conclude, on_event, on_check, on_budget, with_budget_of, on_overdue,
  overdue, is_awaiting, on_task, on_found, on_named, create_task, process,
}

pub record SameCounters (k k' : Kernel) : Type 0 where
  pub next_seq : k'.next_seq ≡ k.next_seq
  pub applied_through : k'.applied_through ≡ k.applied_through
  pub policy : k'.policy ≡ k.policy

SameCounters-trans : (i j k : Kernel) → SameCounters i j → SameCounters j k → SameCounters i k
SameCounters-trans i j k a b = record {
  next_seq = b.next_seq ∙ a.next_seq;
  applied_through = b.applied_through ∙ a.applied_through;
  policy = b.policy ∙ a.policy;
}

set_task_status-SameCounters :
    (tid : ℕ) (to : TaskStatus) (k : Kernel) → SameCounters k (set_task_status tid to k)
unfolding set_task_status
set_task_status-SameCounters tid TaskStatus.blocked k = ground arith
set_task_status-SameCounters tid to k = ground arith

by_table-SameCounters :
    (tr : TaskTransition) (tid : ℕ) (k : Kernel) → SameCounters k (by_table tr tid k)
unfolding by_table
by_table-SameCounters TaskTransition.stay tid k = ground arith
by_table-SameCounters (TaskTransition.move to) tid k = set_task_status-SameCounters tid to k

module _ (e : Event) (t : TaskEntry) where
  act_on-SameCounters : (d : PolicyDecision) (k : Kernel) → SameCounters k (act_on d e t k).0
  unfolding act_on ask_once ask_for
  act_on-SameCounters allow k = ground arith
  act_on-SameCounters d k = ground arith

  classify_request-SameCounters : (k : Kernel) → SameCounters k (classify_request e t k).0
  unfolding classify_request
  classify_request-SameCounters k =
      act_on-SameCounters (classify k.policy (or_irreversible e.reversibility)) k

  settle-SameCounters :
      (r : Option ApprovalResolution) (a : ApprovalEntry) (k : Kernel)
      → SameCounters k (settle r a t k).0
  unfolding settle
  settle-SameCounters none a k = ground arith
  settle-SameCounters (some ApprovalResolution.approve) a k = ground arith
  settle-SameCounters (some ApprovalResolution.deny) a k = ground arith

  resolve_found-SameCounters :
      (o : Option ApprovalEntry) (k : Kernel) → SameCounters k (resolve_found o e t k).0
  unfolding resolve_found
  resolve_found-SameCounters none k = ground arith
  resolve_found-SameCounters (some a) k = ground (arith, settle-SameCounters e.resolution a k)

  resolve_approval-SameCounters : (k : Kernel) → SameCounters k (resolve_approval e t k).0
  unfolding resolve_approval resolve_named
  resolve_approval-SameCounters k = grind (arith, resolve_found-SameCounters)

  dispatch-SameCounters : (kind : EventKind) (k : Kernel) → SameCounters k (dispatch kind e t k).0
  unfolding dispatch
  dispatch-SameCounters approval_resolved k = resolve_approval-SameCounters k
  dispatch-SameCounters tool_call_requested k = ground (arith, classify_request-SameCounters k)
  dispatch-SameCounters github_operation_requested k =
      ground (arith, classify_request-SameCounters k)
  dispatch-SameCounters kind k = by_table-SameCounters (task_next t.status kind) t.id k

  conclude-SameCounters : (r : Kernel × List Action) → SameCounters r.0 (conclude t.id e r).0
  unfolding conclude
  conclude-SameCounters (k, acts) =
      let d = drain_ready-SameButReady (touch t.id e k) in
      record {
        next_seq = d.same.next_seq;
        applied_through = d.same.applied_through;
        policy = d.same.policy;
      }

  on_event-SameCounters : (k : Kernel) → SameCounters k (on_event e t k).0
  unfolding on_event
  on_event-SameCounters k =
      let j = apply_job e k in
      let s = apply_job-SameButJobs e k in
      let r = dispatch e.kind e t j in
      SameCounters-trans k j (conclude t.id e r).0
        (record { next_seq = s.next_seq; applied_through = s.applied_through; policy = s.policy })
        (SameCounters-trans j r.0 (conclude t.id e r).0 (dispatch-SameCounters e.kind j)
          (conclude-SameCounters r))

  on_check-SameCounters : (c : BudgetCheck) (k : Kernel) → SameCounters k (on_check c e t k).0
  unfolding on_check
  on_check-SameCounters within_budget k = on_event-SameCounters k
  on_check-SameCounters (exhausted a) k = ground arith

on_budget-SameCounters :
    (o : Option BudgetDelta) (e : Event) (t : TaskEntry) (k : Kernel)
    → SameCounters k (on_budget o e t k).0
unfolding on_budget
on_budget-SameCounters none e t k = on_event-SameCounters e t k
on_budget-SameCounters (some d) e t k =
    let b = (record_delta t.budget d).0 in
    let s =
      on_check-SameCounters e (with_budget_of b t) (record_delta t.budget d).1
        (update_task t.id (with_budget_of b) k) in
    record { next_seq = s.next_seq; applied_through = s.applied_through; policy = s.policy }

on_overdue-SameCounters :
    (o : Option ℕ) (e : Event) (t : TaskEntry) (k : Kernel) → SameCounters k (on_overdue o e t k).0
unfolding on_overdue
on_overdue-SameCounters none e t k = on_budget-SameCounters e.budget_delta e t k
on_overdue-SameCounters (some aid) e t k = ground arith

on_task-SameCounters : (e : Event) (t : TaskEntry) (k : Kernel) → SameCounters k (on_task e t k).0
unfolding on_task
on_task-SameCounters e t k = ground (
  arith,
  on_overdue-SameCounters (if is_awaiting t.status then overdue t.awaiting e k else none) e t k,
)

create_task-SameCounters :
    (o : Option ℕ) (b : Option Budget) (e : Event) (k : Kernel)
    → SameCounters k (create_task o b e k)
unfolding create_task
create_task-SameCounters o b e k = ground arith

on_named-SameCounters : (o : Option ℕ) (e : Event) (k : Kernel) → SameCounters k (on_named o e k).0
unfolding on_named on_found
on_named-SameCounters none e k = ground arith
on_named-SameCounters (some tid) e k = elim (Option-cases (find_task tid k)) [
  | inl f ↦ rw f (ground arith)
  | inr (t, f) ↦ rw f (on_task-SameCounters e t k)
]

pub process-SameCounters : (e : Event) (k : Kernel) → SameCounters k (process e k).0
unfolding process
process-SameCounters e k =
    ground
      (arith, create_task-SameCounters e.task_id e.budget e k, on_named-SameCounters e.task_id e k)
