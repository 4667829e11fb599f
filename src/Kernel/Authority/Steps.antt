-- ===== src/Kernel/Authority/Steps.antt =====
-- Every action of a step is authorized.
use crust_core.Prelude.{
  if◌then◌else◌, ◌≡◌, refl, sym, ap, ◌∙◌, subst, subst₂, Bool-cases, Option-cases, inl, inr, ◌⊎◌,
  true, Option, none, some, List, ◌++◌, All, All-append, arith,
}
use crust_core.Prelude.Arena.{key-find}
use crust_core.Types.Word.{TaskId, ApprovalId}
use crust_core.Types.Status.{TaskStatus, is_terminal}
use crust_core.Types.Budget.{
  Budget, BudgetDelta, BudgetCheck, record_delta, within_budget, exhausted,
}
use crust_core.Policy.{PolicySnapshot}
use crust_core.Kernel.Event.{
  Event, Action, append_event, request_model, run_tool, request_approval, task_finished,
}
use crust_core.Kernel.State.{
  Kernel, TaskEntry, ApprovalEntry, task_key, find_task, task_status, update_task,
}
use crust_core.Kernel.Jobs.{any_runs_for, is_runnable_job, apply_job, drain, drain_ready}
use crust_core.Kernel.Jobs.Frame.{drain-SameButReady, apply_job-SameButJobs}
use crust_core.Kernel.Step.{
  is_awaiting, is_ended, touch, dispatch, conclude, finished, on_event, on_check, with_budget_of,
  on_budget, on_overdue, overdue, on_task, on_found, on_named, is_task_created, process, is_replay,
  count_event, step,
}
use crust_core.Prelude.Arena.{find-modify}
use crust_core.Kernel.Authority.{AllowedBy, GrantedBy, Released, AllReleased, IsAuthorized}
use crust_core.Kernel.Authority.Handlers.{dispatch-Released}
use crust_core.Kernel.Authority.Models.{All-imp, task_status-same, NamesModel, drain-NamesModel}

-- What stands behind an action of the handling of the task `t`.
abbrev TaskBacked :
    Event → PolicySnapshot → List ApprovalEntry → TaskEntry → Kernel → Action → Type 0
TaskBacked e p aps t k' (run_tool jid) =
    (is_runnable_job jid t.id k' ≡ true) × (AllowedBy e p t jid ⊎ GrantedBy e aps t jid)
TaskBacked e p aps t k' (request_model jid) = NamesModel k' (request_model jid)
TaskBacked e p aps t k' (task_finished tid) =
    (s : TaskStatus) × (tid ≡ t.id) × (task_status tid k' ≡ some s) × (is_terminal s ≡ true)
TaskBacked e p aps t k' (request_approval _) = Unit
TaskBacked e p aps t k' (append_event _) = ⊥

-- A write of the last event changes no status.
pub task_status-touch :
    (tid i : TaskId) (e : Event) (k : Kernel) → task_status i (touch tid e k) ≡ task_status i k
task_status-touch tid i e k = ground (
  arith,
  find-modify task_key tid i (λ (t : TaskEntry). record t { last_event = e.seq }) k.tasks
      (λ t. refl),
)

ended_of :
    (o : Option TaskStatus)
    → is_ended o ≡ true
    → (s : TaskStatus) × (o ≡ some s) × (is_terminal s ≡ true)
ended_of none h = cc
ended_of (some s) h = (s, refl, h)

module _ (e : Event) (p : PolicySnapshot) (aps : List ApprovalEntry) (t : TaskEntry) where
  Released-TaskBacked :
      (k k' : Kernel)
      → k'.jobs ≡ k.jobs
      → (a : Action) → Released e p aps t k a
      → TaskBacked e p aps t k' a
  unfolding is_runnable_job
  Released-TaskBacked k k' same (run_tool jid) b = (ap (any_runs_for jid t.id) same ∙ b.0, b.1)
  Released-TaskBacked k k' same (request_approval _) b = tt
  Released-TaskBacked k k' same (request_model _) b = absurd b
  Released-TaskBacked k k' same (append_event _) b = absurd b
  Released-TaskBacked k k' same (task_finished _) b = absurd b

  NamesModel-TaskBacked : (k' : Kernel) (a : Action) → NamesModel k' a → TaskBacked e p aps t k' a
  NamesModel-TaskBacked k' (request_model jid) b = b
  NamesModel-TaskBacked k' (run_tool _) b = absurd b
  NamesModel-TaskBacked k' (request_approval _) b = absurd b
  NamesModel-TaskBacked k' (append_event _) b = absurd b
  NamesModel-TaskBacked k' (task_finished _) b = absurd b

  finished-TaskBacked :
      (k k' : Kernel)
      → task_status t.id k' ≡ task_status t.id k
      → All (TaskBacked e p aps t k') (finished t.id k)
  finished-TaskBacked k k' same = elim (Bool-cases (is_ended (task_status t.id k))) [
    | inr w ↦ rw w tt
    | inl w ↦
        let (s, at, ended) = ended_of (task_status t.id k) w in
        rw w ((s, refl, same ∙ at, ended), tt)
  ]

  conclude-TaskBacked :
      (r : Kernel × List Action)
      → AllReleased e p aps t r
      → All (TaskBacked e p aps t (conclude t.id e r).0) (conclude t.id e r).1
  unfolding conclude drain_ready
  conclude-TaskBacked (k, acts) h =
      let k1 = touch t.id e k in
      let k' = (drain 1 k1).0 in
      let s = drain-SameButReady 1 k1 in
      All-append (TaskBacked e p aps t k') acts (finished t.id k ++ (drain 1 k1).1)
        (All-imp (Released e p aps t k) (TaskBacked e p aps t k') (Released-TaskBacked k k' s.jobs)
          acts h)
        (All-append (TaskBacked e p aps t k') (finished t.id k) (drain 1 k1).1
          (finished-TaskBacked k k'
            (task_status-same t.id k1 k' s.same.tasks ∙ task_status-touch t.id t.id e k))
          (All-imp (NamesModel k') (TaskBacked e p aps t k') (NamesModel-TaskBacked k')
            (drain 1 k1).1 (drain-NamesModel 1 k1)))

abbrev AllTaskBacked :
    Event → PolicySnapshot → List ApprovalEntry → TaskEntry → Kernel × List Action → Type 0
AllTaskBacked e p aps t r = All (TaskBacked e p aps t r.0) r.1

on_event-TaskBacked :
    (e : Event) (t : TaskEntry) (k : Kernel)
    → AllTaskBacked e k.policy k.approvals t (on_event e t k)
unfolding on_event
on_event-TaskBacked e t k =
    let j = apply_job e k in
    let s = apply_job-SameButJobs e k in
    let r = dispatch e.kind e t j in
    conclude-TaskBacked e k.policy k.approvals t r (
      subst₂ (λ p aps. AllReleased e p aps t r) s.policy s.approvals
        (dispatch-Released e t j e.kind refl))

on_check-TaskBacked :
    (c : BudgetCheck) (e : Event) (t : TaskEntry) (k : Kernel)
    → AllTaskBacked e k.policy k.approvals t (on_check c e t k)
unfolding on_check
on_check-TaskBacked within_budget e t k = on_event-TaskBacked e t k
on_check-TaskBacked (exhausted axis) e t k = tt

-- The budget fold leaves alone what an authority is about.
TaskBacked-rebudget :
    (b : Budget) (e : Event) (p : PolicySnapshot) (aps : List ApprovalEntry) (t : TaskEntry)
    (k' : Kernel) (a : Action)
    → TaskBacked e p aps (with_budget_of b t) k' a
    → TaskBacked e p aps t k' a
TaskBacked-rebudget b e p aps t k' (run_tool jid) (r, inl w) = (
  r,
  inl (record {
    requested = w.requested;
    at_work = w.at_work;
    allowed = w.allowed;
    names_job = w.names_job;
  }),
)
TaskBacked-rebudget b e p aps t k' (run_tool jid) (r, inr w) = (
  r,
  inr (record {
    resolves = w.resolves;
    by_user = w.by_user;
    approves = w.approves;
    approval = w.approval;
    aid = w.aid;
    on_record = w.on_record;
    names_approval = w.names_approval;
    awaited = w.awaited;
    is_open = w.is_open;
    call = w.call;
    bound_to = w.bound_to;
    names_call = w.names_call;
    in_time = w.in_time;
    names_job = w.names_job;
  }),
)
TaskBacked-rebudget b e p aps t k' (request_model jid) w = w
TaskBacked-rebudget b e p aps t k' (request_approval _) w = tt
TaskBacked-rebudget b e p aps t k' (append_event _) w = absurd w
TaskBacked-rebudget b e p aps t k' (task_finished _) w = w

on_budget-TaskBacked :
    (o : Option BudgetDelta) (e : Event) (t : TaskEntry) (k : Kernel)
    → AllTaskBacked e k.policy k.approvals t (on_budget o e t k)
unfolding on_budget
on_budget-TaskBacked none e t k = on_event-TaskBacked e t k
on_budget-TaskBacked (some d) e t k =
    let b = (record_delta t.budget d).0 in
    let c = (record_delta t.budget d).1 in
    let k1 = update_task t.id (with_budget_of b) k in
    let r = on_check c e (with_budget_of b t) k1 in
    All-imp (TaskBacked e k.policy k.approvals (with_budget_of b t) r.0)
      (TaskBacked e k.policy k.approvals t r.0) (TaskBacked-rebudget b e k.policy k.approvals t r.0)
      r.1 (on_check-TaskBacked c e (with_budget_of b t) k1)

on_overdue-TaskBacked :
    (o : Option ApprovalId) (e : Event) (t : TaskEntry) (k : Kernel)
    → AllTaskBacked e k.policy k.approvals t (on_overdue o e t k)
unfolding on_overdue
on_overdue-TaskBacked none e t k = on_budget-TaskBacked e.budget_delta e t k
on_overdue-TaskBacked (some aid) e t k = tt

on_task-TaskBacked :
    (e : Event) (t : TaskEntry) (k : Kernel)
    → AllTaskBacked e k.policy k.approvals t (on_task e t k)
unfolding on_task
on_task-TaskBacked e t k = elim (Bool-cases (is_terminal t.status)) [
  | inl ended ↦ rw ended tt
  | inr live ↦
      rw live (
        on_overdue-TaskBacked (if is_awaiting t.status then overdue t.awaiting e k else none) e t k)
]

TaskBacked-IsAuthorized :
    (e : Event) (t : TaskEntry) (k k' : Kernel)
    → e.task_id ≡ some t.id
    → find_task t.id k ≡ some t
    → (a : Action) → TaskBacked e k.policy k.approvals t k' a
    → IsAuthorized e k k' a
TaskBacked-IsAuthorized e t k k' named at (run_tool jid) w = (t, named, at, w.0, w.1)
TaskBacked-IsAuthorized e t k k' named at (request_model jid) w = w
TaskBacked-IsAuthorized e t k k' named at (request_approval _) w = tt
TaskBacked-IsAuthorized e t k k' named at (append_event _) w = absurd w
TaskBacked-IsAuthorized e t k k' named at (task_finished tid) w =
    (w.0, named ∙ ap some (sym w.1), w.2, w.3)

on_named-IsAuthorized :
    (o : Option TaskId) (e : Event) (k : Kernel)
    → e.task_id ≡ o
    → All (IsAuthorized e k (on_named o e k).0) (on_named o e k).1
unfolding on_named on_found
on_named-IsAuthorized none e k named = tt
on_named-IsAuthorized (some tid) e k named = elim (Option-cases (find_task tid k)) [
  | inl e0 ↦ rw e0 tt
  | inr (t, found) ↦
      let same = key-find task_key tid k.tasks found in
      let r = on_task e t k in
      rw found (
        All-imp (TaskBacked e k.policy k.approvals t r.0) (IsAuthorized e k r.0)
          (TaskBacked-IsAuthorized e t k r.0 (named ∙ ap some (sym same))
            (subst (λ i. find_task i k ≡ some t) (sym same) found))
          r.1 (on_task-TaskBacked e t k))
]

process-IsAuthorized :
    (e : Event) (k : Kernel) → All (IsAuthorized e k (process e k).0) (process e k).1
unfolding process
process-IsAuthorized e k = elim (Bool-cases (is_task_created e.kind)) [
  | inl c ↦ rw c tt
  | inr c ↦ rw c (on_named-IsAuthorized e.task_id e k refl)
]

IsAuthorized-count_event :
    (e : Event) (k k' : Kernel) (a : Action)
    → IsAuthorized e k k' a
    → IsAuthorized e k (count_event e k') a
unfolding is_runnable_job
IsAuthorized-count_event e k k' (run_tool jid) w = w
IsAuthorized-count_event e k k' (request_model jid) w = w
IsAuthorized-count_event e k k' (request_approval _) w = tt
IsAuthorized-count_event e k k' (append_event _) w = w
IsAuthorized-count_event e k k' (task_finished tid) w = w

-- Every action that a step returns is authorized. A tool run is for a job that is leased or running
-- and belongs to the task that the event names, and either the policy allowed the request of a
-- task that was running or integrating, or the event is a user's approval, in time, of the pending
-- approval that the task awaits, and names the operation that it is bound to. A model request is
-- for a runnable job of a running task, a finish notice for a task that has ended, and an append
-- is for the event's own task.
pub step-IsAuthorized : (e : Event) (k : Kernel) → All (IsAuthorized e k (step e k).0) (step e k).1
unfolding step
step-IsAuthorized e k = elim (Bool-cases (is_replay e k)) [
  | inl r ↦ rw r tt
  | inr r ↦
      let k' = (process e k).0 in
      rw r (
        refl,
        All-imp (IsAuthorized e k k') (IsAuthorized e k (count_event e k'))
            (IsAuthorized-count_event e k k') (process e k).1 (process-IsAuthorized e k),
      )
]
