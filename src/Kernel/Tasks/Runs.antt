-- ===== src/Kernel/Tasks/Runs.antt =====
-- One task through a step, and through a whole run.
use mathlib.Core.Option.{some-injective}
use crust_core.Prelude.{
  ◌==◌, ==_iff, ◌≡◌, refl, sym, ap, ◌∙◌, subst, Bool-cases, inl, inr, is_some_of, true, false, some,
  List, [], ◌∷◌, All, arith,
}
use crust_core.Prelude.Arena.{find, find-append_left}
use crust_core.Types.Word.{TaskId}
use crust_core.Types.Status.{TaskStatus, is_terminal}
use crust_core.Kernel.Event.{Event}
use crust_core.Kernel.State.{Kernel, TaskEntry, new_task, task_key, find_task, task_status}
use crust_core.Kernel.Step.{step, run}
use crust_core.Kernel.Tasks.{◌⟶◌, IsConsistent, Moves}
use crust_core.Kernel.Tasks
use crust_core.Kernel.Tasks.Arena.{find-put, find-put_ne}
use crust_core.Kernel.Tasks.Lifecycle.{
  Outcome, unchanged, opened, changed, step-Outcome, step-IsConsistent,
}

infix 40 ◌⟶*◌
pub data ◌⟶*◌ : TaskStatus → TaskStatus → Type 0 where
  here : {s : TaskStatus} → s ⟶* s
  more : {s t u : TaskStatus} → s ⟶ t → t ⟶* u → s ⟶* u

-- The task of an id after a step, given how it relates to the record before.
record Later (R : TaskEntry → TaskEntry → Type 0) (tid : TaskId) (t : TaskEntry) (k' : Kernel)
    : Type 0 where
  pub entry : TaskEntry
  pub found : find_task tid k' ≡ some entry
  pub related : R t entry

abbrev Along : TaskEntry → TaskEntry → Type 0
Along t t' = t.status ⟶ t'.status

find-Outcome :
    (e : Event) (k k' : Kernel) (tid : TaskId) (t : TaskEntry)
    → Outcome e k k'
    → find_task tid k ≡ some t
    → Later Along tid t k'
find-Outcome e k k' tid t (unchanged same s) found = record {
  entry = t;
  found = ap (find task_key tid) same ∙ found;
  related = Tasks.rest;
}
find-Outcome e k k' tid t (opened new_id b named fresh fin same s) found = record {
  entry = t;
  found =
      ap (find task_key tid) same
      ∙ find-append_left task_key tid k.tasks (new_task new_id b e.seq ∷ []) found;
  related = Tasks.rest;
}
find-Outcome e k k' tid t (changed s named at eff) found = elim (Bool-cases (tid == s.id)) [
  | inl same ↦
      let is_s : tid ≡ s.id = (==_iff tid s.id).0 same in
      let t_is : some t ≡ some s = sym found ∙ ap (λ i. find task_key i k.tasks) is_s ∙ at in
      record {
        entry = eff.after;
        found =
            ap (λ i. find task_key i k'.tasks) is_s
            ∙ ap (find task_key s.id) eff.tasks
            ∙ find-put s.id s eff.after k.tasks at eff.moves.same_id;
        related =
            subst (λ (x : TaskEntry). Along x eff.after) (sym (some-injective _ _ t_is))
              eff.moves.edge;
      }
  | inr other ↦ record {
    entry = t;
    found =
        ap (find task_key tid) eff.tasks
        ∙ find-put_ne s.id tid eff.after k.tasks eff.moves.same_id
            (λ p. cc (other, (==_iff tid s.id).1 p))
        ∙ found;
    related = Tasks.rest;
  }
]

step-Later :
    (e : Event) (k : Kernel) (tid : TaskId) (t : TaskEntry)
    → All IsConsistent k.tasks
    → find_task tid k ≡ some t
    → Later Along tid t (step e k).0
step-Later e k tid t ok found = find-Outcome e k (step e k).0 tid t (step-Outcome e k ok) found

-- If every task of a kernel is consistent, a step keeps each task that exists, and its status
-- rests or moves along one edge of the lifecycle diagram.
pub step-along :
    (e : Event) (k : Kernel) (tid : TaskId) (t : TaskEntry)
    → All IsConsistent k.tasks
    → find_task tid k ≡ some t
    → (t' : TaskEntry) × (find_task tid (step e k).0 ≡ some t') × (t.status ⟶ t'.status)
step-along e k tid t ok found =
    let l = step-Later e k tid t ok found in (l.entry, l.found, l.related)

terminal-rest : {s s' : TaskStatus} → s ⟶ s' → is_terminal s ≡ true → s' ≡ s
terminal-rest (Tasks.rest) h = refl
terminal-rest (Tasks.pause live) h = cc
terminal-rest (Tasks.complete live) h = cc
terminal-rest (Tasks.fail live) h = cc
terminal-rest (Tasks.kill live) h = cc
terminal-rest (Tasks.plan) h = cc
terminal-rest _ h = cc

abbrev AlongAll : TaskEntry → TaskEntry → Type 0
AlongAll t t' = t.status ⟶* t'.status

run_along :
    (es : List Event) (k : Kernel) (tid : TaskId) (t : TaskEntry)
    → All IsConsistent k.tasks
    → find_task tid k ≡ some t
    → Later AlongAll tid t (run es k)
unfolding run
run_along [] k tid t ok found = record { entry = t; found = found; related = here }
run_along (e ∷ es) k tid t ok found =
    let s = step-Later e k tid t ok found in
    let r = run_along es (step e k).0 tid s.entry (step-IsConsistent e k ok) s.found in
    record { entry = r.entry; found = r.found; related = more s.related r.related }

terminal-stays : {s s' : TaskStatus} → s ⟶* s' → is_terminal s ≡ true → s' ≡ s
terminal-stays here h = refl
terminal-stays (more {s = s} {t = t} st rest) h =
    let e : t ≡ s = terminal-rest st h in terminal-stays rest (ap is_terminal e ∙ h) ∙ e

-- If every task of a kernel is consistent, a task that has ended is still there after any events,
-- with the status that it had.
pub run-terminal :
    (es : List Event) (k : Kernel) (tid : TaskId) (t : TaskEntry)
    → All IsConsistent k.tasks
    → find_task tid k ≡ some t
    → is_terminal t.status ≡ true
    → task_status tid (run es k) ≡ some t.status
run-terminal es k tid t ok found ended =
    let r = run_along es k tid t ok found in
    rw (r.found, task_status) (ap some (terminal-stays r.related ended))

-- If every task of a kernel is consistent, a task that an event does not name has the same record
-- after the step.
pub step-other :
    (e : Event) (k : Kernel) (tid : TaskId) (t : TaskEntry)
    → All IsConsistent k.tasks
    → find_task tid k ≡ some t
    → is_some_of e.task_id tid ≡ false
    → find_task tid (step e k).0 ≡ some t
step-other e k tid t ok found other = frame (step-Outcome e k ok)
  where
    frame : Outcome e k (step e k).0 → find_task tid (step e k).0 ≡ some t
    frame (unchanged same s) = ap (find task_key tid) same ∙ found
    frame (opened new_id b named fresh fin same s) =
        ap (find task_key tid) same
        ∙ find-append_left task_key tid k.tasks (new_task new_id b e.seq ∷ []) found
    frame (changed s named at eff) =
        ap (find task_key tid) eff.tasks
        ∙ find-put_ne s.id tid eff.after k.tasks eff.moves.same_id
            (λ p. grind (arith, p, named, other))
        ∙ found
