-- ===== src/Kernel/Resume/Handlers.antt =====
-- What the handlers do to a task that waits for an approval.
use mathlib.Core.Option.{some-injective}
use crust_core.Prelude.{◌≡◌, refl, sym, ap, ==_refl, ◌∙◌, inr, false, some, List}
use crust_core.Prelude.Arena.{find, modify, find-modify}
use crust_core.Types.Status.{TaskStatus, ApprovalStatus, ApprovalResolution}
use crust_core.Kernel.Event.{Event, Action}
use crust_core.Kernel.State.{
  Kernel, TaskEntry, ApprovalEntry, BlockReason, task_key, approval_key, find_task, find_approval,
  task_status,
}
use crust_core.Kernel.Jobs.Frame.{drain_ready-SameButReady}
use crust_core.Kernel.Approvals.{enter, block, set_blocked, settle}
use crust_core.Kernel.Step.{conclude, is_replay, is_running, with_budget_of, touch}
use crust_core.Kernel.Authority.Models.{task_status-same}
use crust_core.Kernel.Authority.Steps.{task_status-touch}
use crust_core.Kernel.Resume.{Affords, charged, IsTimelyApproval, Verdict}

pub conclude_status :
    (e : Event) (t : TaskEntry) (k : Kernel) (acts : List Action)
    → task_status t.id (conclude t.id e (k, acts)).0 ≡ task_status t.id k
unfolding conclude
conclude_status e t k acts =
    task_status-same t.id (touch t.id e k) (conclude t.id e (k, acts)).0
      (drain_ready-SameButReady (touch t.id e k)).same.tasks
    ∙ task_status-touch t.id t.id e k

pub set_blocked_status :
    (t t' : TaskEntry) (r : BlockReason) (k : Kernel)
    → find_task t.id k ≡ some t'
    → task_status t.id (set_blocked t.id r k) ≡ some TaskStatus.blocked
set_blocked_status t t' r k f =
    rw (find-modify task_key t.id t.id (block r) k.tasks (λ x. refl), ==_refl t.id, f, task_status)
      refl

-- The task running, with nothing awaited and the event on record.
abbrev pub resumed : Event → TaskEntry → TaskEntry
resumed e t = record (enter TaskStatus.running t) { last_event = e.seq }

abbrev pub granted : ApprovalEntry → ApprovalEntry
granted a = record a { status = ApprovalStatus.approved }

module _ (e : Event) (t : TaskEntry) (a : ApprovalEntry) (j : Kernel) where
  abbrev settled : Kernel
  settled = (settle (some ApprovalResolution.approve) a t j).0

  pub settled-task :
      (x : TaskEntry)
      → find_task t.id j ≡ some x
      → find_task t.id (conclude t.id e (settle (some ApprovalResolution.approve) a t j)).0
        ≡ some (resumed e x)
  unfolding settle conclude
  settled-task x f =
      ap (find task_key t.id) (drain_ready-SameButReady (touch t.id e settled)).same.tasks
      ∙ rw
          (
            find-modify task_key t.id t.id (λ y. record y { last_event = e.seq })
                (modify task_key t.id (enter TaskStatus.running) j.tasks) (λ y. refl),
            find-modify task_key t.id t.id (enter TaskStatus.running) j.tasks (λ y. refl),
            ==_refl t.id,
            f,
          )
          refl

  pub settled-approval :
      find_approval a.id j ≡ some a
      → find_approval a.id (conclude t.id e (settle (some ApprovalResolution.approve) a t j)).0
        ≡ some (granted a)
  unfolding settle conclude
  settled-approval f =
      ap (find approval_key a.id) (drain_ready-SameButReady (touch t.id e settled)).same.approvals
      ∙ rw
          (
            find-modify approval_key a.id a.id (λ y. record y { status = ApprovalStatus.approved })
                j.approvals (λ y. refl),
            ==_refl a.id,
            f,
          )
          refl

module _ (e : Event) (k : Kernel) (t : TaskEntry) where
  -- The approval that is timely is the one on record under the awaited identifier.
  pub same_entry :
      (a x : ApprovalEntry)
      → t.awaiting ≡ some a.id
      → find_approval a.id k ≡ some a
      → IsTimelyApproval e k t x
      → x ≡ a
  same_entry a x w f h =
      let i : x.id ≡ a.id = some-injective _ _ (sym h.awaited ∙ w) in
      some-injective _ _ (sym h.on_record ∙ ap (λ n. find_approval n k) i ∙ f)

  pub rests :
      (k' : Kernel) (s : TaskStatus)
      → ((a : ApprovalEntry) → ¬ IsTimelyApproval e k t a)
      → task_status t.id k' ≡ some s
      → is_running s ≡ false
      → Verdict e k t k'
  rests k' s never f w = inr (
    never,
    λ q. let r : s ≡ TaskStatus.running = some-injective _ _ (sym f ∙ q) in cc (ap is_running r, w),
  )

-- The kernel after the charge and the jobs, where the task has paid.
pub record IsCharged (e : Event) (k : Kernel) (t : TaskEntry) (j : Kernel) : Type 0 where
  pub named : e.task_id ≡ some t.id
  pub new : is_replay e k ≡ false
  pub waits : t.status ≡ TaskStatus.awaiting_approval
  pub affordable : Affords t.budget e.budget_delta
  pub found : find_task t.id j ≡ some (with_budget_of (charged t.budget e.budget_delta) t)
  pub approvals : j.approvals ≡ k.approvals
