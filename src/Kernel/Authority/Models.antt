-- ===== src/Kernel/Authority/Models.antt =====
-- The ready queue drives the model only for a runnable job of a running task.
use crust_core.Prelude.{
  ℕ, zero, suc, ◌≡◌, refl, ap, ◌∙◌, Bool-cases, List-cases, inl, inr, true, Option, none, some,
  List, [], ◌∷◌, All, All-append,
}
use crust_core.Prelude.Arena.{find}
use crust_core.Types.Word.{TaskId, JobId}
use crust_core.Types.Status.{TaskStatus}
use crust_core.Kernel.Event.{Action, append_event, request_model}
use crust_core.Kernel.State.{Kernel, JobEntry, job_key, find_job, task_status}
use crust_core.Kernel.Jobs.{is_runnable, is_running_task, drain}
use crust_core.Kernel.Jobs.Frame.{SameButReady, drain-SameButReady}
use crust_core.Kernel.Jobs.{model_for}

pub All-imp :
    (P Q : Action → Type 0) → ((a : Action) → P a → Q a) → (xs : List Action) → All P xs → All Q xs
All-imp P Q f [] h = tt
All-imp P Q f (a ∷ xs) h = (f a h.0, All-imp P Q f xs h.1)

pub task_status-same :
    (i : TaskId) (k k' : Kernel) → k'.tasks ≡ k.tasks → task_status i k' ≡ task_status i k
task_status-same i k k' ts = rw (ts, task_status)

-- Actions that name a job are backed by what the kernel after the step holds.
abbrev pub NamesModel : Kernel → Action → Type 0
NamesModel k' (request_model jid) =
    (j : JobEntry) × (find_job jid k' ≡ some j)
    × (is_runnable j.status ≡ true)
    × (task_status j.task k' ≡ some TaskStatus.running)
NamesModel k' _ = ⊥

pub NamesModel-same :
    (k k' : Kernel) → SameButReady k k' → (a : Action) → NamesModel k a → NamesModel k' a
NamesModel-same k k' s (request_model jid) b = (
  b.0,
  ap (find job_key jid) s.jobs ∙ b.1,
  b.2,
  task_status-same b.0.task k k' s.same.tasks ∙ b.3,
)
NamesModel-same k k' s (append_event _) b = absurd b
NamesModel-same k k' s _ b = absurd b

running_of : (o : Option TaskStatus) → is_running_task o ≡ true → o ≡ some TaskStatus.running
running_of (some TaskStatus.running) h = refl
running_of none h = cc
running_of (some _) h = cc

model_for-NamesModel :
    (o : Option JobEntry) (jid : JobId) (k : Kernel)
    → find_job jid k ≡ o
    → All (NamesModel k) (model_for o jid k)
model_for-NamesModel none jid k f = tt
model_for-NamesModel (some j) jid k f = elim (Bool-cases (is_running_task (task_status j.task k))) [
  | inr w ↦ rw w tt
  | inl w ↦ rw w (elim (Bool-cases (is_runnable j.status)) [
    | inr r ↦ rw r tt
    | inl r ↦ rw r ((j, f, r, running_of (task_status j.task k) w), tt)
  ])
]

pub drain-NamesModel : (n : ℕ) (k : Kernel) → All (NamesModel (drain n k).0) (drain n k).1
unfolding drain
drain-NamesModel zero k = tt
drain-NamesModel (suc n) k = elim (List-cases k.ready) [
  | inl e ↦ rw e tt
  | inr (jid, rest, e) ↦
      let k1 = record k { ready = rest } in
      rw e (
        All-append (NamesModel (drain n k1).0) (model_for (find_job jid k1) jid k1) (drain n k1).1
          (All-imp (NamesModel k1) (NamesModel (drain n k1).0)
            (NamesModel-same k1 (drain n k1).0 (drain-SameButReady n k1))
            (model_for (find_job jid k1) jid k1)
            (model_for-NamesModel (find_job jid k1) jid k1 refl))
          (drain-NamesModel n k1))
]
