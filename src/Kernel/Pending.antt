-- ===== src/Kernel/Pending.antt =====
-- Every approval that a task awaits is on record, pending, and bound to that task and an operation.
use crust_core.Prelude.{
  ◌+◌, ◌≤◌, ◌<◌, ◌==◌, ==_iff, ==_refl, ◌≡◌, ◌≢◌, refl, sym, ap, subst, subst₂, ◌∙◌, inl, inr,
  Bool-cases, Option-cases, is_some, true, Option, none, some, List, [], ◌∷◌, ◌++◌, length, All,
  All-append, arith,
}
use mathlib.Core.Option.{some-injective}
use crust_core.Prelude.Arena.{find, find-append, find-append_left, find-modify, All-modify}
use crust_core.Types.Word.{TaskId, ApprovalId, u128_max, saturating_add_u128}
use crust_core.Types.Status.{ApprovalStatus}
use crust_core.Types.Budget.{Budget}
use crust_core.Policy.{PolicySnapshot}
use crust_core.Kernel.Event.{Event}
use crust_core.Kernel.State.{
  Kernel, TaskEntry, ApprovalEntry, new, new_task, task_key, approval_key, find_task, find_approval,
  set_approval_status,
}
use crust_core.Kernel.Step.{step, run}
use crust_core.Kernel.Tasks.{IsConsistent}
use crust_core.Kernel.Tasks.Arena.{find-put, find-put_ne}
use crust_core.Kernel.Tasks.Effects.{ApprovalEffect, kept, closed, opened}
use crust_core.Kernel.Tasks.Lifecycle.{Outcome, SameApprovals, step-Outcome, step-IsConsistent}
use crust_core.Kernel.Tasks.Lifecycle

-- The approval that a task awaits, if any, is pending, for this task, and bound to an operation.
abbrev pub Held : List ApprovalEntry → TaskId → Option ApprovalId → Type 0
Held aps tid none = Unit
Held aps tid (some aid) =
    (a : ApprovalEntry) × (find approval_key aid aps ≡ some a)
    × (a.status ≡ ApprovalStatus.pending)
    × (a.task ≡ tid)
    × (is_some a.op.tool_call_id ≡ true)

pub record IsSound (k : Kernel) : Type 0 where
  pub below : All (λ a. a.id < k.next_approval) k.approvals
  pub held :
      (tid : TaskId) (t : TaskEntry) → find_task tid k ≡ some t → Held k.approvals tid t.awaiting

-- An identifier that was not given out yet is not on record.
find-fresh :
    (n : ApprovalId) (aps : List ApprovalEntry)
    → All (λ a. a.id < n) aps
    → find approval_key n aps ≡ none
unfolding find
find-fresh n [] h = refl
find-fresh n (a ∷ aps) h = ground (arith, find-fresh n aps)

All-below :
    (m n : ApprovalId) (aps : List ApprovalEntry)
    → m ≤ n
    → All (λ a. a.id < m) aps
    → All (λ a. a.id < n) aps
All-below m n [] le h = tt
All-below m n (a ∷ aps) le h = (omega arith, All-below m n aps le h.1)

Held-append :
    (aps : List ApprovalEntry) (a : ApprovalEntry) (tid : TaskId) (o : Option ApprovalId)
    → Held aps tid o
    → Held (aps ++ a ∷ []) tid o
Held-append aps a tid none h = tt
Held-append aps a tid (some aid) h =
    (h.0, find-append_left approval_key aid aps (a ∷ []) h.1, h.2, h.3, h.4)

-- Closing the approval that another task awaits.
Held-closed :
    (k : Kernel) (tid other : TaskId) (o : Option ApprovalId) (aid : ApprovalId)
    (s : ApprovalStatus)
    → tid ≢ other
    → Held k.approvals other (some aid)
    → Held k.approvals tid o
    → Held (set_approval_status aid s k).approvals tid o
Held-closed k tid other none aid s ne h' h = tt
Held-closed k tid other (some aid') aid s ne h' h = elim (Bool-cases (aid == aid')) [
  | inl same ↦
      let e : aid ≡ aid' = (==_iff aid aid').0 same in
      let same_entry : some h.0 ≡ some h'.0 =
        sym h.1 ∙ ap (λ i. find_approval i k) (sym e) ∙ h'.1 in
      absurd
        (ne (sym h.3 ∙ ap (λ (a : ApprovalEntry). a.task) (some-injective _ _ same_entry) ∙ h'.3))
  | inr differ ↦ (
    h.0,
    find-modify approval_key aid aid' (λ (a : ApprovalEntry). record a { status = s }) k.approvals
          (λ a. refl)
        ∙ rw differ h.1,
    h.2,
    h.3,
    h.4,
  )
]

-- The approval that was just minted.
Held-minted :
    (k : Kernel) (a : ApprovalEntry) (tid : TaskId)
    → All (λ (x : ApprovalEntry). x.id < k.next_approval) k.approvals
    → a.id ≡ k.next_approval
    → a.status ≡ ApprovalStatus.pending
    → a.task ≡ tid
    → is_some a.op.tool_call_id ≡ true
    → Held (k.approvals ++ a ∷ []) tid (some k.next_approval)
unfolding find
Held-minted k a tid below i st tk call = (
  a,
  find-append approval_key k.next_approval k.approvals (a ∷ [])
      ∙ rw (find-fresh k.next_approval k.approvals below, i, ==_refl),
  st,
  tk,
  call,
)

Held-at :
    (aps aps' : List ApprovalEntry) (tid : TaskId) (o o' : Option ApprovalId)
    → aps ≡ aps'
    → o ≡ o'
    → Held aps tid o
    → Held aps' tid o'
Held-at aps aps' tid o o' ps os h = subst₂ (λ x y. Held x tid y) ps os h

-- The identifiers stay below the counter, while it has room.
below-effect :
    (e : Event) (tid : TaskId) (o o' : Option ApprovalId) (k k' : Kernel)
    → ApprovalEffect e tid o o' k k'
    → k.next_approval < u128_max
    → All (λ (a : ApprovalEntry). a.id < k.next_approval) k.approvals
    → All (λ (a : ApprovalEntry). a.id < k'.next_approval) k'.approvals
below-effect e tid o o' k k' (kept x n z) room h = rw (x, n) h
below-effect e tid o o' k k' (closed aid s held free x n why) room h =
    rw (x, n)
      (All-modify (λ (a : ApprovalEntry). a.id < k.next_approval) approval_key aid
        (λ (a : ApprovalEntry). record a { status = s }) k.approvals (λ a p. p) h)
below-effect e tid o o' k k' (opened a held i st tk call x n) room h =
    rw (x, n)
      (All-append (λ (b : ApprovalEntry). b.id < saturating_add_u128 k.next_approval 1) k.approvals
        (a ∷ [])
        (All-below k.next_approval (saturating_add_u128 k.next_approval 1) k.approvals (omega arith)
          h)
        (omega arith, tt))

-- The task that the event names.
Held-self :
    (e : Event) (tid : TaskId) (o o' : Option ApprovalId) (k k' : Kernel)
    → ApprovalEffect e tid o o' k k'
    → All (λ (a : ApprovalEntry). a.id < k.next_approval) k.approvals
    → Held k.approvals tid o
    → Held k'.approvals tid o'
Held-self e tid o o' k k' (kept x n (inl z)) b h =
    Held-at k.approvals k'.approvals tid o o' (sym x) (sym z) h
Held-self e tid o o' k k' (kept x n (inr z)) b h =
    Held-at k'.approvals k'.approvals tid none o' refl (sym z) tt
Held-self e tid o o' k k' (closed aid s held free x n why) b h =
    Held-at k'.approvals k'.approvals tid none o' refl (sym free) tt
Held-self e tid o o' k k' (opened a held i st tk call x n) b h =
    Held-at (k.approvals ++ a ∷ []) k'.approvals tid (some k.next_approval) o' (sym x) (sym held)
      (Held-minted k a tid b i st tk call)

-- Any other task.
Held-other :
    (e : Event) (tid other : TaskId) (o p p' : Option ApprovalId) (k k' : Kernel)
    → tid ≢ other
    → ApprovalEffect e other p p' k k'
    → Held k.approvals other p
    → Held k.approvals tid o
    → Held k'.approvals tid o
Held-other e tid other o p p' k k' ne (kept x n z) hp h =
    Held-at k.approvals k'.approvals tid o o (sym x) refl h
Held-other e tid other o p p' k k' ne (closed aid s held free x n why) hp h =
    Held-at (set_approval_status aid s k).approvals k'.approvals tid o o (sym x) refl (
      Held-closed k tid other o aid s ne
        (Held-at k.approvals k.approvals other p (some aid) refl held hp) h)
Held-other e tid other o p p' k k' ne (opened a held i st tk call x n) hp h =
    Held-at (k.approvals ++ a ∷ []) k'.approvals tid o o (sym x) refl
      (Held-append k.approvals a tid o h)

only-found : (tid : TaskId) (x t : TaskEntry) → find task_key tid (x ∷ []) ≡ some t → x ≡ t
unfolding find
only-found tid x t h = elim (Bool-cases (x.id == tid)) [
  | inl e ↦ some-injective _ _ (rw e at h)
  | inr e ↦ absurd (cc (rw e at h))
]

-- A new task awaits nothing.
Held-new :
    (k : Kernel) (e : Event) (new_id tid : TaskId) (b : Budget) (t : TaskEntry)
    → IsSound k
    → find task_key tid (k.tasks ++ new_task new_id b e.seq ∷ []) ≡ some t
    → Held k.approvals tid t.awaiting
Held-new k e new_id tid b t sound found = elim (Option-cases (find_task tid k)) [
  | inr (s, at) ↦
      let first = find-append_left task_key tid k.tasks (new_task new_id b e.seq ∷ []) at in
      let same : s ≡ t = some-injective _ _ (sym first ∙ found) in
      subst (λ (x : TaskEntry). Held k.approvals tid x.awaiting) same (sound.held tid s at)
  | inl absent ↦
      let last =
        cc_none absent
          (sym (find-append task_key tid k.tasks (new_task new_id b e.seq ∷ [])) ∙ found) in
      subst (λ (x : TaskEntry). Held k.approvals tid x.awaiting)
        (only-found tid (new_task new_id b e.seq) t last) tt
]
  where
    cc_none :
        {o : Option TaskEntry}
        → find_task tid k ≡ none
        → ◌≡◌ {A = Option TaskEntry}
            (elim (find_task tid k) [ none ↦ o | some a ↦ some a ])
            (some t)
        → o ≡ some t
    cc_none {o} absent h = rw absent at h

IsSound-Outcome :
    (e : Event) (k k' : Kernel)
    → k.next_approval < u128_max
    → IsSound k
    → Outcome e k k'
    → IsSound k'
IsSound-Outcome e k k' room sound (Lifecycle.unchanged same s) = record {
  below = rw (s.approvals, s.next_approval) sound.below;
  held =
      λ tid t found. rw s.approvals (sound.held tid t (sym (ap (find task_key tid) same) ∙ found));
}
IsSound-Outcome e k k' room sound (Lifecycle.opened new_id b named fresh fin same s) = record {
  below = rw (s.approvals, s.next_approval) sound.below;
  held = λ tid t found.
      rw s.approvals
        (Held-new k e new_id tid b t sound (sym (ap (find task_key tid) same) ∙ found));
}
IsSound-Outcome e k k' room sound (Lifecycle.changed s named at eff) = record {
  below = below-effect e s.id s.awaiting eff.after.awaiting k k' eff.approvals room sound.below;
  held = λ tid t found. elim (Bool-cases (tid == s.id)) [
    | inl same ↦
        let is_s : tid ≡ s.id = (==_iff tid s.id).0 same in
        let t_is : eff.after ≡ t = some-injective _ _ (
          sym (find-put s.id s eff.after k.tasks at eff.moves.same_id)
          ∙ sym (ap (find task_key s.id) eff.tasks)
          ∙ ap (λ i. find task_key i k'.tasks) (sym is_s)
          ∙ found) in
        subst₂ (λ i (x : TaskEntry). Held k'.approvals i x.awaiting) (sym is_s) t_is
          (Held-self e s.id s.awaiting eff.after.awaiting k k' eff.approvals sound.below
            (sound.held s.id s at))
    | inr differ ↦
        let ne : tid ≢ s.id = λ p. cc (differ, (==_iff tid s.id).1 p) in
        Held-other e tid s.id t.awaiting s.awaiting eff.after.awaiting k k' ne eff.approvals
          (sound.held s.id s at)
          (sound.held tid t (
            sym (find-put_ne s.id tid eff.after k.tasks eff.moves.same_id ne)
            ∙ sym (ap (find task_key tid) eff.tasks)
            ∙ found))
  ];
}

-- A step mints at most one identifier.
next_approval-effect :
    (e : Event) (tid : TaskId) (o o' : Option ApprovalId) (k k' : Kernel)
    → ApprovalEffect e tid o o' k k'
    → k'.next_approval ≤ k.next_approval + 1
next_approval-effect e tid o o' k k' (kept x n z) = omega arith
next_approval-effect e tid o o' k k' (closed aid s held free x n why) = omega arith
next_approval-effect e tid o o' k k' (opened a held i st tk call x n) = omega arith

next_approval-Outcome :
    (e : Event) (k k' : Kernel) → Outcome e k k' → k'.next_approval ≤ k.next_approval + 1
next_approval-Outcome e k k' (Lifecycle.unchanged same s) = omega (arith, s.next_approval)
next_approval-Outcome e k k' (Lifecycle.opened new_id b named fresh fin same s) =
    omega (arith, s.next_approval)
next_approval-Outcome e k k' (Lifecycle.changed s named at eff) =
    next_approval-effect e s.id s.awaiting eff.after.awaiting k k' eff.approvals

run_from-IsSound :
    (es : List Event) (k : Kernel)
    → k.next_approval + length es ≤ u128_max
    → All IsConsistent k.tasks
    → IsSound k
    → IsSound (run es k)
unfolding run
run_from-IsSound [] k room ok sound = sound
run_from-IsSound (e ∷ es) k room ok sound =
    let out = step-Outcome e k ok in
    run_from-IsSound es (step e k).0 (omega (arith, next_approval-Outcome e k (step e k).0 out))
      (step-IsConsistent e k ok) (IsSound-Outcome e k (step e k).0 (omega arith) sound out)

-- After fewer than u128::MAX events from a new kernel, every approval on record has an identifier
-- that was given out, and the approval that a task awaits is on record, pending, for that task,
-- and bound to an operation.
pub run-IsSound :
    (es : List Event) (p : PolicySnapshot) → length es < u128_max → IsSound (run es (new p))
unfolding new find
run-IsSound es p few =
    run_from-IsSound es (new p) (omega arith) tt
      (record { below = tt; held = λ tid t found. absurd (nothing tid t found) })
  where
    nothing : (tid : TaskId) (t : TaskEntry) → find task_key tid [] ≡ some t → ⊥
    nothing tid t found = cc
