-- ===== src/Kernel/Tasks/Process.antt =====
-- A whole step, seen from the arena of tasks.
use crust_core.Prelude.{
  ◌≡◌, refl, ap, ◌∙◌, Bool-cases, inl, inr, if◌then◌else◌, Bool, false, Option, none, some, List,
  arith,
}
use crust_core.Prelude.Arena.{find, modify}
use crust_core.Types.Status.{ApprovalStatus, is_terminal}
use crust_core.Types.Word.{ApprovalId}
use crust_core.Types.Budget.{BudgetDelta, BudgetCheck, record_delta, within_budget, exhausted}
use crust_core.Types.Budget.Laws.{is_fully_bounded-record_delta}
use crust_core.Kernel.Event.{
  EventKind, Event, Action, approval_resolved, tool_call_requested, github_operation_requested,
}
use crust_core.Kernel.State
use crust_core.Kernel.State.{
  op_matches, Kernel, TaskEntry, ApprovalEntry, BlockReason, task_key, find_task, find_approval,
  update_task, budget_exhausted,
}
use crust_core.Kernel.Tables.{task_next}
use crust_core.Kernel.Jobs.{apply_job, drain_ready}
use crust_core.Kernel.Approvals.{set_blocked}
use crust_core.Kernel.Step.{
  is_working, touch, is_awaiting, is_running, dispatch, conclude, on_event, on_check, on_budget,
  overdue, on_overdue, on_task, with_budget_of,
}
use crust_core.Kernel.Tasks.{IsConsistent, Moves}
use crust_core.Kernel.Tasks.Arena.{put, modify-put, put-put, find-put}
use crust_core.Kernel.Tasks.Edges.{task_next-Follows}
use crust_core.Kernel.Tasks.Effects.{
  Effect, Effect-none, ApprovalEffect, ApprovalEffect-between, closed,
}
use crust_core.Kernel.Tasks.Handlers.{
  Effect-block, Effect-set_blocked, Effect-follow, Effect-classify_request, Effect-resolve_approval,
}
use crust_core.Kernel.Jobs.Frame.{SameButJobs, apply_job-SameButJobs, drain_ready-SameButReady}

-- A second write at the task, after an effect on it, that leaves awaiting and approvals alone.
Effect-then :
    (e : Event) (t : TaskEntry) (k k' k'' : Kernel) (f : TaskEntry → TaskEntry)
    (eff : Effect e t k k')
    → find_task t.id k ≡ some t
    → Moves t (f eff.after)
    → k''.tasks ≡ modify task_key t.id f k'.tasks
    → ApprovalEffect e t.id t.awaiting (f eff.after).awaiting k k''
    → Effect e t k k''
Effect-then e t k k' k'' f eff found m same a = record {
  after = f eff.after;
  moves = m;
  tasks =
      same
      ∙ ap (modify task_key t.id f) eff.tasks
      ∙ modify-put t.id eff.after f (put t.id eff.after k.tasks)
          (find-put t.id t eff.after k.tasks found eff.moves.same_id)
      ∙ put-put t.id eff.after (f eff.after) k.tasks eff.moves.same_id;
  approvals = a;
}

seen : Event → TaskEntry → TaskEntry
seen e t = record t { last_event = e.seq }

Moves-seen : (e : Event) (t t' : TaskEntry) → Moves t t' → Moves t (seen e t')
unfolding seen
Moves-seen e t t' m = record {
  same_id = m.same_id;
  edge = m.edge;
  consistent = record {
    reason_when_blocked = m.consistent.reason_when_blocked;
    awaiting_when_asked = m.consistent.awaiting_when_asked;
    bounded = m.consistent.bounded;
  };
}

module _ (e : Event) (t : TaskEntry) (k : Kernel) (found : find_task t.id k ≡ some t) where
  -- A write of the last event after a handler.
  Effect-touch : (k' : Kernel) → Effect e t k k' → Effect e t k (touch t.id e k')
  unfolding seen
  Effect-touch k' eff =
      Effect-then e t k k' (touch t.id e k') (seen e) eff found (Moves-seen e t eff.after eff.moves)
        refl
        (ApprovalEffect-between e t.id t.awaiting eff.after.awaiting k k k' (touch t.id e k') refl
          refl refl refl eff.approvals)

  Effect-conclude :
      (r : Kernel × List Action) → Effect e t k r.0 → Effect e t k (conclude t.id e r).0
  unfolding conclude
  Effect-conclude (k1, acts) eff =
      let eff' = Effect-touch k1 eff in
      let k2 = touch t.id e k1 in
      let s = (drain_ready-SameButReady k2).same in
      record {
        after = eff'.after;
        moves = eff'.moves;
        tasks = s.tasks ∙ eff'.tasks;
        approvals =
            ApprovalEffect-between e t.id t.awaiting eff'.after.awaiting k k k2 (drain_ready k2).0
              refl refl s.approvals s.next_approval eff'.approvals;
      }

-- An effect on a kernel with the same tasks and approvals.
Effect-from :
    (e : Event) (t : TaskEntry) (j k k' : Kernel)
    → SameButJobs k j
    → Effect e t j k'
    → Effect e t k k'
Effect-from e t j k k' s eff = record {
  after = eff.after;
  moves = eff.moves;
  tasks = eff.tasks ∙ ap (put t.id eff.after) s.tasks;
  approvals =
      ApprovalEffect-between e t.id t.awaiting eff.after.awaiting j k k' k' s.approvals
        s.next_approval refl refl eff.approvals;
}

module _ (e : Event) (t : TaskEntry) (k : Kernel) (found : find_task t.id k ≡ some t)
    (ok : IsConsistent t) (live : is_terminal t.status ≡ false) where
  Effect-dispatch : (kind : EventKind) → Effect e t k (dispatch kind e t k).0
  unfolding dispatch
  Effect-dispatch approval_resolved = Effect-resolve_approval e t k found ok live
  Effect-dispatch tool_call_requested = elim (Bool-cases (is_running t.status)) [
    | inl w ↦ rw w (Effect-classify_request e t k found ok live (ground arith))
    | inr w ↦ rw w (Effect-none e t k found ok)
  ]
  Effect-dispatch github_operation_requested = elim (Bool-cases (is_working t.status)) [
    | inl w ↦ rw w (Effect-classify_request e t k found ok live w)
    | inr w ↦ rw w (Effect-none e t k found ok)
  ]
  Effect-dispatch kind =
      Effect-follow e t k found ok live (task_next t.status kind)
        (task_next-Follows t.status kind live)

module _ (e : Event) where
  Effect-on_event :
      (t : TaskEntry) (k : Kernel)
      → find_task t.id k ≡ some t
      → IsConsistent t
      → is_terminal t.status ≡ false
      → Effect e t k (on_event e t k).0
  unfolding on_event
  Effect-on_event t k found ok live =
      let j = apply_job e k in
      let s = apply_job-SameButJobs e k in
      let r = dispatch e.kind e t j in
      Effect-conclude e t k found r (
        Effect-from e t j k r.0 s
          (Effect-dispatch e t j (ap (find task_key t.id) s.tasks ∙ found) ok live e.kind))

  Effect-on_check :
      (c : BudgetCheck) (t : TaskEntry) (k : Kernel)
      → find_task t.id k ≡ some t
      → IsConsistent t
      → is_terminal t.status ≡ false
      → Effect e t k (on_check c e t k).0
  unfolding on_check
  Effect-on_check within_budget t k found ok live = Effect-on_event t k found ok live
  Effect-on_check (exhausted axis) t k found ok live =
      Effect-touch e t k found (set_blocked t.id (budget_exhausted axis) k)
        (Effect-set_blocked e t k found ok live (budget_exhausted axis))

  -- The fold of a delta keeps the task's status, and its limits.
  Effect-on_budget :
      (o : Option BudgetDelta) (t : TaskEntry) (k : Kernel)
      → find_task t.id k ≡ some t
      → IsConsistent t
      → is_terminal t.status ≡ false
      → Effect e t k (on_budget o e t k).0
  unfolding on_budget
  Effect-on_budget none t k found ok live = Effect-on_event t k found ok live
  Effect-on_budget (some d) t k found ok live =
      let b = (record_delta t.budget d).0 in
      let c = (record_delta t.budget d).1 in
      let t' = with_budget_of b t in
      let j = update_task t.id (with_budget_of b) k in
      let at_j = modify-put t.id t (with_budget_of b) k.tasks found in
      let eff =
        Effect-on_check c t' j
          (ap (find task_key t.id) at_j ∙ find-put t.id t t' k.tasks found refl)
          (record {
            reason_when_blocked = ok.reason_when_blocked;
            awaiting_when_asked = ok.awaiting_when_asked;
            bounded = is_fully_bounded-record_delta t.budget d ∙ ok.bounded;
          })
          live in
      record {
        after = eff.after;
        moves = record {
          same_id = eff.moves.same_id;
          edge = eff.moves.edge;
          consistent = eff.moves.consistent;
        };
        tasks = eff.tasks ∙ ap (put t.id eff.after) at_j ∙ put-put t.id t' eff.after k.tasks refl;
        approvals =
            ApprovalEffect-between e t.id t.awaiting eff.after.awaiting j k (on_check c e t' j).0
              (on_check c e t' j).0 refl refl refl refl eff.approvals;
      }

  -- The sweep closes the approval that the task awaits.
  Effect-on_overdue :
      (o : Option ApprovalId) (t : TaskEntry) (k : Kernel)
      → ((aid : ApprovalId) → o ≡ some aid → t.awaiting ≡ some aid)
      → find_task t.id k ≡ some t
      → IsConsistent t
      → is_terminal t.status ≡ false
      → Effect e t k (on_overdue o e t k).0
  unfolding on_overdue
  Effect-on_overdue none t k held found ok live = Effect-on_budget e.budget_delta t k found ok live
  Effect-on_overdue (some aid) t k held found ok live = Effect-touch e t k found _ (
      Effect-block e t k found ok live State.approval_expired _ refl
        (closed aid ApprovalStatus.expired (held aid refl) refl refl refl (inl refl)))

overdue-held :
    (b : Bool) (o : Option ApprovalId) (e : Event) (k : Kernel) (aid : ApprovalId)
    → (if b then overdue o e k else none) ≡ some aid
    → o ≡ some aid
unfolding overdue
overdue-held b none e k aid h = ground arith
overdue-held b (some a) e k aid h = ground arith

-- An event that names a task replaces its record by one that moved along the diagram.
pub Effect-on_task :
    (e : Event) (t : TaskEntry) (k : Kernel)
    → find_task t.id k ≡ some t
    → IsConsistent t
    → Effect e t k (on_task e t k).0
unfolding on_task
Effect-on_task e t k found ok = elim (Bool-cases (is_terminal t.status)) [
  | inl ended ↦ rw ended (Effect-touch e t k found k (Effect-none e t k found ok))
  | inr live ↦ rw live (
      Effect-on_overdue e (if is_awaiting t.status then overdue t.awaiting e k else none) t k
        (overdue-held (is_awaiting t.status) t.awaiting e k) found ok live)
]
