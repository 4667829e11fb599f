-- ===== src/Kernel/Resume/Steps.antt =====
-- A waiting task through one step.
use crust_core.Prelude.{
  ◌≡◌, ◌≢◌, refl, sym, ap, subst, ==_refl, ◌∙◌, Bool-cases, inl, inr, true, false, Option, none,
  some, [], ◌∷◌, is_some_of, is_some, All, arith,
}
use crust_core.Prelude.Arena.{find, find-modify, find-append_left}
use crust_core.Types.Word.{TaskId, ApprovalId}
use crust_core.Types.Status.{TaskStatus, ApprovalStatus, is_terminal}
use crust_core.Types.Budget.{
  Budget, BudgetAxis, BudgetDelta, BudgetCheck, within_budget, exhausted, record_delta,
  is_fully_bounded,
}
use crust_core.Kernel.Event.{Event}
use crust_core.Kernel.State.{
  Kernel, TaskEntry, ApprovalEntry, BlockReason, budget_exhausted, approval_expired, new_task,
  task_key, find_task, task_status, update_task, set_approval_status,
}
use crust_core.Kernel.Jobs.{apply_job}
use crust_core.Kernel.Jobs.Frame.{apply_job-SameButJobs}
use crust_core.Kernel.Approvals.{set_blocked}
use crust_core.Kernel.Approvals.Tests.{awaited_of}
use crust_core.Kernel.Step.{
  is_awaiting, on_event, on_check, on_budget, overdue, on_overdue, on_task, on_found, on_named,
  create_task, is_task_created, process, is_replay, with_budget_of, touch, count_event, step,
}
use crust_core.Kernel.Tasks.{IsConsistent}
use crust_core.Kernel.Tasks.Runs.{step-other}
use crust_core.Kernel.Authority.Steps.{task_status-touch}
use crust_core.Kernel.Resume.{Affords, charged, IsTimelyApproval, Verdict}
use crust_core.Kernel.Resume.Handlers.{rests, set_blocked_status}
use crust_core.Kernel.Resume.Guards.{dispatch-Verdict}

within_exhausted : (axis : BudgetAxis) → within_budget ≢ exhausted axis
within_exhausted axis q = ground arith

module _ (e : Event) (k : Kernel) (t : TaskEntry) (f : find_task t.id k ≡ some t)
    (w : t.status ≡ TaskStatus.awaiting_approval) where
  -- The step blocks the task before the event is looked at.
  stopped :
      (r : BlockReason) (t' : TaskEntry) (j : Kernel)
      → ((a : ApprovalEntry) → ¬ IsTimelyApproval e k t a)
      → find_task t.id j ≡ some t'
      → Verdict e k t (touch t.id e (set_blocked t.id r j))
  stopped r t' j never g =
      rests e k t (touch t.id e (set_blocked t.id r j)) TaskStatus.blocked never
        (task_status-touch t.id t.id e (set_blocked t.id r j) ∙ set_blocked_status t t' r j g) refl

  untouched :
      (k' : Kernel)
      → ((a : ApprovalEntry) → ¬ IsTimelyApproval e k t a)
      → find_task t.id k' ≡ some t
      → Verdict e k t k'
  untouched k' never g =
      rests e k t k' TaskStatus.awaiting_approval never (rw (g, task_status) (ap some w)) refl

  paid :
      (b : Budget)
      → find_task t.id (update_task t.id (with_budget_of b) k) ≡ some (with_budget_of b t)
  paid b =
      rw (find-modify task_key t.id t.id (with_budget_of b) k.tasks (λ x. refl), ==_refl t.id, f)
        refl

  in_time_overdue : (a : ApprovalEntry) → IsTimelyApproval e k t a → overdue t.awaiting e k ≡ none
  unfolding overdue
  in_time_overdue a h = rw (h.awaited, h.on_record, h.in_time) refl

  process-overdue :
      e.task_id ≡ some t.id
      → is_task_created e.kind ≡ false
      → process e k ≡ on_overdue (overdue t.awaiting e k) e t k
  unfolding process on_named on_found on_task
  process-overdue named y = rw y (
      ap (λ o. on_named o e k) named
      ∙ ap (λ o. on_found o e k) f
      ∙ rw (ap is_terminal w, ap is_awaiting w) refl)

  create_task-kept :
      (o : Option TaskId) (b : Option Budget) → find_task t.id (create_task o b e k) ≡ some t
  unfolding create_task
  create_task-kept (some tid) (some b) = elim (Bool-cases (is_some (find_task tid k))) [
    | inl x ↦ rw x f
    | inr x ↦ rw x (elim (Bool-cases (is_fully_bounded b)) [
      | inl y ↦ rw y (find-append_left task_key t.id k.tasks (new_task tid b e.seq ∷ []) f)
      | inr y ↦ rw y f
    ])
  ]
  create_task-kept none b = f
  create_task-kept (some tid) none = f

  process-created : is_task_created e.kind ≡ true → find_task t.id (process e k).0 ≡ some t
  unfolding process
  process-created y = rw y (create_task-kept e.task_id e.budget)

  module _ (named : e.task_id ≡ some t.id) (new : is_replay e k ≡ false) where
    on_event-Verdict :
        (j : Kernel)
        → Affords t.budget e.budget_delta
        → find_task t.id j ≡ some (with_budget_of (charged t.budget e.budget_delta) t)
        → j.approvals ≡ k.approvals
        → Verdict e k t (on_event e (with_budget_of (charged t.budget e.budget_delta) t) j).0
    unfolding on_event
    on_event-Verdict j pays g same =
        let s = apply_job-SameButJobs e j in
        dispatch-Verdict e k t (apply_job e j)
          (record {
            named = named;
            new = new;
            waits = w;
            affordable = pays;
            found = ap (find task_key t.id) s.tasks ∙ g;
            approvals = s.approvals ∙ same;
          })
          e.kind refl

    on_check-Verdict :
        (d : BudgetDelta) (c : BudgetCheck)
        → e.budget_delta ≡ some d
        → (record_delta t.budget d).1 ≡ c
        → Verdict e k t
            (on_check c e
              (with_budget_of (record_delta t.budget d).0 t)
              (update_task t.id (with_budget_of (record_delta t.budget d).0) k)).0
    unfolding on_check on_event
    on_check-Verdict d within_budget q c =
        let j = update_task t.id (with_budget_of (record_delta t.budget d).0) k in
        subst (λ o. Verdict e k t (on_event e (with_budget_of (charged t.budget o) t) j).0) q
          (on_event-Verdict j (subst (Affords t.budget) (sym q) c)
            (subst (λ o. find_task t.id j ≡ some (with_budget_of (charged t.budget o) t)) (sym q)
              (paid (record_delta t.budget d).0))
            refl)
    on_check-Verdict d (exhausted axis) q c =
        let b = (record_delta t.budget d).0 in
        stopped (budget_exhausted axis) (with_budget_of b t) (update_task t.id (with_budget_of b) k)
          (λ x h.
            let within = subst (Affords t.budget) q h.affordable in
            within_exhausted axis (sym within ∙ c))
          (paid b)

    on_budget-Verdict :
        (o : Option BudgetDelta) → e.budget_delta ≡ o → Verdict e k t (on_budget o e t k).0
    unfolding on_budget
    on_budget-Verdict none q =
        subst (λ o. Verdict e k t (on_event e (with_budget_of (charged t.budget o) t) k).0) q
          (on_event-Verdict k (rw q tt) (rw q f) refl)
    on_budget-Verdict (some d) q = on_check-Verdict d (record_delta t.budget d).1 q refl

    on_overdue-Verdict :
        (o : Option ApprovalId) → overdue t.awaiting e k ≡ o → Verdict e k t (on_overdue o e t k).0
    unfolding on_overdue
    on_overdue-Verdict none q = on_budget-Verdict e.budget_delta refl
    on_overdue-Verdict (some aid) q =
        stopped approval_expired t (set_approval_status aid ApprovalStatus.expired k)
          (λ x h. ground (arith, in_time_overdue x h, q)) f

    process-Verdict : Verdict e k t (process e k).0
    process-Verdict = elim (Bool-cases (is_task_created e.kind)) [
      | inl y ↦
          untouched (process e k).0 (λ x h. cc (ap is_task_created h.kind, y)) (process-created y)
      | inr y ↦
          subst (λ r. Verdict e k t r.0) (sym (process-overdue named y))
            (on_overdue-Verdict (overdue t.awaiting e k) refl)
    ]

-- The counters of the kernel decide nothing here.
counted :
    (e : Event) (k : Kernel) (t : TaskEntry) (k' : Kernel)
    → Verdict e k t k'
    → Verdict e k t (count_event e k')
counted e k t k' (inr never) = inr never
counted e k t k' (inl (a, h, r)) = inl (
  a,
  h,
  record {
    entry = r.entry;
    found = r.found;
    runs = r.runs;
    awaits_nothing = r.awaits_nothing;
    unblocked = r.unblocked;
    budget = r.budget;
    last_event = r.last_event;
    approval = r.approval;
    on_record = r.on_record;
    approved = r.approved;
    same_task = r.same_task;
    same_job = r.same_job;
    same_op = r.same_op;
    same_deadline = r.same_deadline;
  },
)

-- If every task of a kernel is consistent, a task that awaits an approval is resumed by a step
-- exactly when the event is a user's timely approval: it is no replay, the budget affords it, it
-- names the task, the pending approval that the task awaits and its operation, and it does not
-- come after the deadline. Then the task runs, awaits nothing, is not blocked and has paid for the
-- event, and the approval is approved and otherwise the same. After any other event the task does
-- not run.
pub step_resumes :
    (e : Event) (k : Kernel) (t : TaskEntry)
    → All IsConsistent k.tasks
    → find_task t.id k ≡ some t
    → t.status ≡ TaskStatus.awaiting_approval
    → Verdict e k t (step e k).0
unfolding step
step_resumes e k t ok f w = elim (Bool-cases (is_some_of e.task_id t.id)) [
  | inr o ↦
      untouched e k t f w (step e k).0
        (λ x h. cc (ap (λ i. is_some_of i t.id) h.task, ==_refl t.id, o))
        (step-other e k t.id t ok f o)
  | inl o ↦
      let named = awaited_of e.task_id t.id o in
      elim (Bool-cases (is_replay e k)) [
        | inl r ↦ rw r (untouched e k t f w k (λ x h. cc (h.new, r)) f)
        | inr r ↦ rw r (counted e k t (process e k).0 (process-Verdict e k t f w named r))
      ]
]
