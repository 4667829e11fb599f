-- ===== src/Kernel/Tasks/Effects.antt =====
-- What one write of a handler does to its task.
use crust_core.Prelude.{
  ℕ, ◌≡◌, refl, sym, ◌∙◌, ap, ◌⊎◌, inl, is_some, is_some_of, true, false, Option, none, some, [],
  ◌∷◌, ◌++◌, arith,
}
use crust_core.Prelude.Arena.{modify}
use crust_core.Types.Status.{TaskStatus, ApprovalStatus, is_terminal}
use crust_core.Types.Word.{TaskId, ApprovalId, saturating_add_u128}
use crust_core.Kernel.Event.{Event, user}
use crust_core.Kernel.State.{
  Kernel, TaskEntry, ApprovalEntry, BlockReason, task_key, approval_key, find_task,
  set_approval_status,
}
use crust_core.Kernel.Approvals.{block, enter, await_approval}
use crust_core.Kernel.Step.{is_working, is_awaiting}
use crust_core.Kernel.Tasks.{◌⟶◌, IsConsistent, Moves, is_blocked}
use crust_core.Kernel.Tasks
use crust_core.Kernel.Tasks.Arena.{put, put-found, modify-put}
use crust_core.Kernel.Tasks.Edges.{from_awaiting, from_working}

-- A user's event that names the approval.
pub record ByUser (e : Event) (aid : ApprovalId) : Type 0 where
  pub by_user : e.actor ≡ user
  pub names : e.approval_id ≡ some aid

-- What became of the approvals, as the task of the id went from awaiting `o` to awaiting `o'`.
pub data ApprovalEffect (e : Event) (tid : TaskId) (o o' : Option ApprovalId) (k k' : Kernel)
    : Type 0 where
  kept :
      k'.approvals ≡ k.approvals
      → k'.next_approval ≡ k.next_approval
      → (o' ≡ o) ⊎ (o' ≡ none)
      → ApprovalEffect e tid o o' k k'
  closed :
      (aid : ApprovalId) (s : ApprovalStatus)
      → o ≡ some aid
      → o' ≡ none
      → k'.approvals ≡ (set_approval_status aid s k).approvals
      → k'.next_approval ≡ k.next_approval
      → (s ≡ ApprovalStatus.expired) ⊎ ByUser e aid
      → ApprovalEffect e tid o o' k k'
  opened :
      (a : ApprovalEntry)
      → o' ≡ some k.next_approval
      → a.id ≡ k.next_approval
      → a.status ≡ ApprovalStatus.pending
      → a.task ≡ tid
      → is_some a.op.tool_call_id ≡ true
      → k'.approvals ≡ k.approvals ++ a ∷ []
      → k'.next_approval ≡ saturating_add_u128 k.next_approval 1
      → ApprovalEffect e tid o o' k k'

-- An effect moves to kernels with the same approvals.
pub ApprovalEffect-between :
    (e : Event) (tid : TaskId) (o o' : Option ApprovalId) (j k j' k' : Kernel)
    → j.approvals ≡ k.approvals
    → j.next_approval ≡ k.next_approval
    → k'.approvals ≡ j'.approvals
    → k'.next_approval ≡ j'.next_approval
    → ApprovalEffect e tid o o' j j'
    → ApprovalEffect e tid o o' k k'
ApprovalEffect-between e tid o o' j k j' k' a n a' n' (kept x y z) =
    kept (a' ∙ x ∙ a) (n' ∙ y ∙ n) z
ApprovalEffect-between e tid o o' j k j' k' a n a' n' (closed aid s held free x y why) =
    closed aid s held free
      (a' ∙ x ∙ ap (modify approval_key aid (λ (q : ApprovalEntry). record q { status = s })) a)
      (n' ∙ y ∙ n) why
ApprovalEffect-between e tid o o' j k j' k' a n a' n' (opened q held i st tk call x y) =
    opened q (held ∙ ap some n) (i ∙ n) st tk call (a' ∙ x ∙ ap (λ l. l ++ q ∷ []) a)
      (n' ∙ y ∙ ap (λ m. saturating_add_u128 m 1) n)

-- The handler's kernel `k'` differs from `k` in its tasks by the record `after` for `t` only.
pub record Effect (e : Event) (t : TaskEntry) (k k' : Kernel) : Type 0 where
  pub after : TaskEntry
  pub moves : Moves t after
  pub tasks : k'.tasks ≡ put t.id after k.tasks
  pub approvals : ApprovalEffect e t.id t.awaiting after.awaiting k k'

module _ (t : TaskEntry) (ok : IsConsistent t) where
  pub Moves-rest : Moves t t
  Moves-rest = record { same_id = refl; edge = Tasks.rest; consistent = ok }

  pub Moves-block : (r : BlockReason) → is_terminal t.status ≡ false → Moves t (block r t)
  Moves-block r live = record {
    same_id = refl;
    edge = Tasks.pause live;
    consistent = record {
      reason_when_blocked = refl;
      awaiting_when_asked = refl;
      bounded = ok.bounded;
    };
  }

  pub Moves-approve :
      (aid : ℕ) → is_some_of t.awaiting aid ≡ true → Moves t (enter TaskStatus.running t)
  Moves-approve aid w = record {
    same_id = refl;
    edge = from_awaiting t.status (ground arith);
    consistent = record {
      reason_when_blocked = refl;
      awaiting_when_asked = refl;
      bounded = ok.bounded;
    };
  }

  pub Moves-await : (aid : ℕ) → is_working t.status ≡ true → Moves t (await_approval aid t)
  Moves-await aid w = record {
    same_id = refl;
    edge = from_working t.status w;
    consistent = record {
      reason_when_blocked = ground arith;
      awaiting_when_asked = refl;
      bounded = ok.bounded;
    };
  }

  pub Moves-enter :
      (to : TaskStatus)
      → t.status ⟶ to
      → is_awaiting to ≡ false
      → is_blocked to ≡ false
      → Moves t (enter to t)
  Moves-enter to edge a b = record {
    same_id = refl;
    edge = edge;
    consistent = record {
      reason_when_blocked = sym b;
      awaiting_when_asked = sym a;
      bounded = ok.bounded;
    };
  }

module _ (e : Event) (t : TaskEntry) (k : Kernel) (found : find_task t.id k ≡ some t) where
  pub Effect-none : IsConsistent t → Effect e t k k
  Effect-none ok = record {
    after = t;
    moves = Moves-rest t ok;
    tasks = sym (put-found t.id t k.tasks found);
    approvals = kept refl refl (inl refl);
  }

  pub Effect-update :
      (k' : Kernel) (f : TaskEntry → TaskEntry)
      → Moves t (f t)
      → k'.tasks ≡ modify task_key t.id f k.tasks
      → ApprovalEffect e t.id t.awaiting (f t).awaiting k k'
      → Effect e t k k'
  Effect-update k' f m same a = record {
    after = f t;
    moves = m;
    tasks = same ∙ modify-put t.id t f k.tasks found;
    approvals = a;
  }
