-- ===== src/Kernel/Tasks/Lifecycle.antt =====
-- The life of a task over whole runs.
use crust_core.Prelude.{
  ◌≡◌, refl, sym, ap, ◌∙◌, subst, Bool-cases, Option-cases, inl, inr, true, Option, none, some,
  List, [], ◌∷◌, ◌++◌, All, All-append,
}
use crust_core.Prelude.Arena.{find-All, key-find}
use crust_core.Types.Word.{TaskId}
use crust_core.Types.Budget.{Budget, is_fully_bounded}
use crust_core.Policy.{PolicySnapshot}
use crust_core.Kernel.Event.{Event}
use crust_core.Kernel.State.{Kernel, TaskEntry, new, new_task, task_key, find_task}
use crust_core.Kernel.Step.{
  on_found, on_named, create_task, is_task_created, process, is_replay, count_event, step, run,
}
use crust_core.Kernel.Tasks.{IsConsistent}
use crust_core.Kernel.Tasks.Arena.{All-put}
use crust_core.Kernel.Tasks.Effects.{Effect, ApprovalEffect-between}
use crust_core.Kernel.Tasks.Process.{Effect-on_task}

pub record SameApprovals (k k' : Kernel) : Type 0 where
  pub approvals : k'.approvals ≡ k.approvals
  pub next_approval : k'.next_approval ≡ k.next_approval

-- What a step does to the tasks and the approvals.
pub data Outcome (e : Event) (k k' : Kernel) : Type 0 where
  unchanged : k'.tasks ≡ k.tasks → SameApprovals k k' → Outcome e k k'
  opened :
      (tid : TaskId) (b : Budget)
      → e.task_id ≡ some tid
      → find_task tid k ≡ none
      → is_fully_bounded b ≡ true
      → k'.tasks ≡ k.tasks ++ new_task tid b e.seq ∷ []
      → SameApprovals k k'
      → Outcome e k k'
  changed :
      (t : TaskEntry)
      → e.task_id ≡ some t.id
      → find_task t.id k ≡ some t
      → Effect e t k k'
      → Outcome e k k'

same_approvals : (k : Kernel) → SameApprovals k k
same_approvals k = record { approvals = refl; next_approval = refl }

on_named-Outcome :
    (o : Option TaskId) (e : Event) (k : Kernel)
    → e.task_id ≡ o
    → All IsConsistent k.tasks
    → Outcome e k (on_named o e k).0
unfolding on_named on_found
on_named-Outcome none e k named ok = unchanged refl (same_approvals k)
on_named-Outcome (some tid) e k named ok = elim (Option-cases (find_task tid k)) [
  | inl e0 ↦ rw e0 (unchanged refl (same_approvals k))
  | inr (t, found) ↦
      let same = key-find task_key tid k.tasks found in
      let at = subst (λ i. find_task i k ≡ some t) (sym same) found in
      rw found (
        changed t (named ∙ ap some (sym same)) at
          (Effect-on_task e t k at (find-All IsConsistent task_key tid k.tasks found ok)))
]

create_task-Outcome :
    (o : Option TaskId) (b : Option Budget) (e : Event) (k : Kernel)
    → e.task_id ≡ o
    → Outcome e k (create_task o b e k)
unfolding create_task
create_task-Outcome none b e k named = unchanged refl (same_approvals k)
create_task-Outcome (some tid) none e k named = unchanged refl (same_approvals k)
create_task-Outcome (some tid) (some b) e k named = elim (Option-cases (find_task tid k)) [
  | inr (t, found) ↦ rw found (unchanged refl (same_approvals k))
  | inl fresh ↦ rw fresh (elim (Bool-cases (is_fully_bounded b)) [
    | inl fin ↦
        rw fin
          (opened tid b named fresh fin refl (record { approvals = refl; next_approval = refl }))
    | inr inf ↦ rw inf (unchanged refl (same_approvals k))
  ])
]

process-Outcome : (e : Event) (k : Kernel) → All IsConsistent k.tasks → Outcome e k (process e k).0
unfolding process
process-Outcome e k ok = elim (Bool-cases (is_task_created e.kind)) [
  | inl c ↦ rw c (create_task-Outcome e.task_id e.budget e k refl)
  | inr c ↦ rw c (on_named-Outcome e.task_id e k refl ok)
]

Outcome-count_event : (e : Event) (k k' : Kernel) → Outcome e k k' → Outcome e k (count_event e k')
Outcome-count_event e k k' (unchanged same s) =
    unchanged same (record { approvals = s.approvals; next_approval = s.next_approval })
Outcome-count_event e k k' (opened tid b named fresh fin same s) =
    opened tid b named fresh fin same
      (record { approvals = s.approvals; next_approval = s.next_approval })
Outcome-count_event e k k' (changed t named found eff) = changed t named found (record {
  after = eff.after;
  moves = eff.moves;
  tasks = eff.tasks;
  approvals =
      ApprovalEffect-between e t.id t.awaiting eff.after.awaiting k k k' (count_event e k') refl
        refl refl refl eff.approvals;
})

pub step-Outcome : (e : Event) (k : Kernel) → All IsConsistent k.tasks → Outcome e k (step e k).0
unfolding step
step-Outcome e k ok = elim (Bool-cases (is_replay e k)) [
  | inl r ↦ rw r (unchanged refl (same_approvals k))
  | inr r ↦ rw r (Outcome-count_event e k (process e k).0 (process-Outcome e k ok))
]

Outcome-IsConsistent :
    (e : Event) (k k' : Kernel)
    → Outcome e k k'
    → All IsConsistent k.tasks
    → All IsConsistent k'.tasks
Outcome-IsConsistent e k k' (unchanged same s) ok = rw same ok
Outcome-IsConsistent e k k' (opened tid b named fresh fin same s) ok = rw same (
    All-append IsConsistent k.tasks (new_task tid b e.seq ∷ []) ok
      (record { reason_when_blocked = refl; awaiting_when_asked = refl; bounded = fin }, tt))
Outcome-IsConsistent e k k' (changed t named found eff) ok =
    rw (eff.tasks) (All-put t.id IsConsistent t eff.after k.tasks found eff.moves.consistent ok)

-- Every step keeps every task consistent.
pub step-IsConsistent :
    (e : Event) (k : Kernel) → All IsConsistent k.tasks → All IsConsistent (step e k).0.tasks
step-IsConsistent e k ok = Outcome-IsConsistent e k (step e k).0 (step-Outcome e k ok) ok

run_from-IsConsistent :
    (es : List Event) (k : Kernel) → All IsConsistent k.tasks → All IsConsistent (run es k).tasks
unfolding run
run_from-IsConsistent [] k ok = ok
run_from-IsConsistent (e ∷ es) k ok =
    run_from-IsConsistent es (step e k).0 (step-IsConsistent e k ok)

-- After any events from a new kernel, each task has a block reason exactly when it is blocked and
-- an awaited approval exactly when it awaits one, and its budget is finite on every axis.
pub run-IsConsistent :
    (es : List Event) (p : PolicySnapshot) → All IsConsistent (run es (new p)).tasks
unfolding new
run-IsConsistent es p = run_from-IsConsistent es (new p) tt
