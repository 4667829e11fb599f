-- ===== src/Kernel/Resume/Guards.antt =====
-- The guards on an approval, in the order of `resolve_approval`: each one that fails leaves the
-- task waiting or blocks it, and the event was no timely approval.
use mathlib.Core.Option.{some-injective}
use crust_core.Prelude.{
  ◌≡◌, refl, sym, ap, subst, ==_refl, ◌∙◌, Bool-cases, inl, inr, true, false, ltb, Option, none,
  some, List, [], is_some_of, arith,
}
use crust_core.Prelude.Arena.{find, find-modify, key-find}
use crust_core.Types.Word.{ApprovalId}
use crust_core.Types.Status.{TaskStatus, ApprovalResolution}
use crust_core.Kernel.Event.{
  EventKind, Event, Action, approval_resolved, tool_call_requested, github_operation_requested,
  is_user,
}
use crust_core.Kernel.State.{
  Kernel, TaskEntry, ApprovalEntry, BlockReason, task_key, approval_key, task_status, update_task,
  find_approval, op_matches,
}
use crust_core.Kernel.Approvals.{
  enter, set_blocked, set_task_status, settle, is_pending, resolve_found, resolve_named,
  resolve_approval,
}
use crust_core.Kernel.Approvals.Tests.{pending_of, awaited_of}
use crust_core.Kernel.Step.{dispatch, conclude, by_table, is_running, is_working, with_budget_of}
use crust_core.Kernel.Tables.{TaskTransition, task_next, task_move}
use crust_core.Kernel.Resume.{charged, IsTimelyApproval, Verdict}
use crust_core.Kernel.Resume.Handlers.{
  IsCharged, rests, same_entry, conclude_status, set_blocked_status, settled-task, settled-approval,
  resumed, granted,
}

-- The transition does not lead to a running task.
abbrev StaysOff : TaskTransition → Type 0
StaysOff TaskTransition.stay = Unit {0}
StaysOff (TaskTransition.move to) = is_running to ≡ false

task_next-StaysOff : (kind : EventKind) → StaysOff (task_next TaskStatus.awaiting_approval kind)
unfolding task_next task_move
task_next-StaysOff EventKind.risk_detected = refl
task_next-StaysOff EventKind.task_completed = refl
task_next-StaysOff EventKind.task_failed = refl
task_next-StaysOff EventKind.task_killed = refl
task_next-StaysOff _ = tt

module _ (e : Event) (k : Kernel) (t : TaskEntry) (j : Kernel) (c : IsCharged e k t j) where
  abbrev payer : TaskEntry
  payer = with_budget_of (charged t.budget e.budget_delta) t

  abbrev Concludes : Kernel × List Action → Type 0
  Concludes r = Verdict e k t (conclude t.id e r).0

  -- The handler leaves the task as it was.
  waits_on :
      (acts : List Action)
      → ((a : ApprovalEntry) → ¬ IsTimelyApproval e k t a)
      → Concludes (j, acts)
  waits_on acts never =
      rests e k t (conclude t.id e (j, acts)).0 TaskStatus.awaiting_approval never
        (conclude_status e t j acts ∙ rw (c.found, task_status) (ap some c.waits)) refl

  -- The handler blocks the task.
  barred :
      (r : BlockReason) (aps : List ApprovalEntry) (acts : List Action)
      → ((a : ApprovalEntry) → ¬ IsTimelyApproval e k t a)
      → Concludes (set_blocked t.id r (record j { approvals = aps }), acts)
  barred r aps acts never =
      let k' = set_blocked t.id r (record j { approvals = aps }) in
      rests e k t (conclude t.id e (k', acts)).0 TaskStatus.blocked never
        (conclude_status e t k' acts
          ∙ set_blocked_status t payer r (record j { approvals = aps }) c.found)
        refl

  settle-Verdict :
      (r : Option ApprovalResolution) (a : ApprovalEntry)
      → (r ≡ some ApprovalResolution.approve → IsTimelyApproval e k t a)
      → e.resolution ≡ r
      → find_approval a.id j ≡ some a
      → Concludes (settle r a payer j)
  unfolding settle
  settle-Verdict none a timely q f = waits_on [] (λ x h. cc (h.resolution, q))
  settle-Verdict (some ApprovalResolution.deny) a timely q f =
      barred _ _ _ (λ x h. ground (arith, h.resolution, q))
  settle-Verdict (some ApprovalResolution.approve) a timely q f = inl (
    a,
    timely refl,
    record {
      entry = resumed e payer;
      approval = granted a;
      found = settled-task e payer a j payer c.found;
      runs = refl;
      awaits_nothing = refl;
      unblocked = refl;
      budget = refl;
      last_event = refl;
      on_record = settled-approval e payer a j f;
      approved = refl;
      same_task = refl;
      same_job = refl;
      same_op = refl;
      same_deadline = refl;
    },
  )

  resolve_found-Verdict :
      (a : ApprovalEntry)
      → e.kind ≡ approval_resolved
      → is_user e.actor ≡ true
      → e.approval_id ≡ some a.id
      → t.awaiting ≡ some a.id
      → find_approval a.id k ≡ some a
      → find_approval a.id j ≡ some a
      → Concludes (resolve_found (some a) e payer j)
  unfolding resolve_found
  resolve_found-Verdict a kd u n w f g =
      let same = same_entry e k t a in
      elim (Bool-cases (is_pending a.status)) [
        | inr p ↦ rw p (
            waits_on [] λ x h.
              cc (ap (λ y. is_pending y.status) (sym (same x w f h)), ap is_pending h.pending, p))
        | inl p ↦ rw p (elim (Bool-cases (op_matches a.op e.tool_call_id)) [
          | inr q ↦ rw q (
              waits_on []
                λ x h. cc (ap (λ y. op_matches y.op e.tool_call_id) (same x w f h), h.operation, q))
          | inl q ↦ rw q (elim (Bool-cases (ltb a.expires_at e.timestamp)) [
            | inl late ↦ rw late (
                barred _ _ _ λ x h.
                  cc (ap (λ y. ltb y.expires_at e.timestamp) (same x w f h), h.in_time, late))
            | inr soon ↦ rw soon (
                settle-Verdict e.resolution a
                  (λ r. record {
                    kind = kd;
                    user = u;
                    task = c.named;
                    approval = n;
                    resolution = r;
                    affordable = c.affordable;
                    awaited = w;
                    on_record = f;
                    pending = pending_of a.status p;
                    operation = q;
                    in_time = soon;
                    new = c.new;
                  })
                  refl g)
          ])
        ])
      ]

  resolve_on-Verdict :
      (o : Option ApprovalEntry) (aid : ApprovalId)
      → e.kind ≡ approval_resolved
      → is_user e.actor ≡ true
      → e.approval_id ≡ some aid
      → t.awaiting ≡ some aid
      → find_approval aid k ≡ o
      → Concludes (resolve_found o e payer j)
  unfolding resolve_found
  resolve_on-Verdict none aid kd u n w f = waits_on [] λ x h.
      cc (ap (λ i. find_approval i k) (some-injective _ _ (sym h.awaited ∙ w)), h.on_record, f)
  resolve_on-Verdict (some a) aid kd u n w f =
      let i : a.id ≡ aid = key-find approval_key aid k.approvals f in
      let g = ap (λ x. find_approval x k) i ∙ f in
      resolve_found-Verdict a kd u (n ∙ ap some (sym i)) (w ∙ ap some (sym i)) g
        (ap (find approval_key a.id) c.approvals ∙ g)

  resolve_named-Verdict :
      (o : Option ApprovalId)
      → e.kind ≡ approval_resolved
      → is_user e.actor ≡ true
      → e.approval_id ≡ o
      → Concludes (resolve_named o e payer j)
  unfolding resolve_named
  resolve_named-Verdict none kd u n = waits_on [] (λ x h. ground (arith, h.approval, n))
  resolve_named-Verdict (some aid) kd u n = elim (Bool-cases (is_some_of t.awaiting aid)) [
    | inr q ↦ rw q (
        waits_on []
          λ x h. cc (ap (λ o. is_some_of o aid) (h.awaited ∙ sym h.approval ∙ n), ==_refl aid, q))
    | inl q ↦
        let aps = ap (find approval_key aid) c.approvals in
        rw (q, aps)
          (resolve_on-Verdict (find_approval aid k) aid kd u n (awaited_of t.awaiting aid q) refl)
  ]

  resolve_approval-Verdict : e.kind ≡ approval_resolved → Concludes (resolve_approval e payer j)
  unfolding resolve_approval
  resolve_approval-Verdict kd = elim (Bool-cases (is_user e.actor)) [
    | inr w ↦ rw w (waits_on [] (λ x h. cc (h.user, w)))
    | inl w ↦ rw w (resolve_named-Verdict e.approval_id kd w refl)
  ]

  entered :
      (to : TaskStatus)
      → ((a : ApprovalEntry) → ¬ IsTimelyApproval e k t a)
      → is_running to ≡ false
      → Concludes (update_task t.id (enter to) j, [])
  entered to never w =
      rests e k t (conclude t.id e (update_task t.id (enter to) j, [])).0 to never
        (conclude_status e t (update_task t.id (enter to) j) []
          ∙ rw
              (
                find-modify task_key t.id t.id (enter to) j.tasks (λ x. refl),
                ==_refl t.id,
                c.found,
                task_status,
              )
              refl)
        w

  moved-Verdict :
      (m : TaskTransition)
      → ((a : ApprovalEntry) → ¬ IsTimelyApproval e k t a)
      → StaysOff m
      → Concludes (by_table m t.id j, [])
  unfolding by_table set_task_status
  moved-Verdict TaskTransition.stay never w = waits_on [] never
  moved-Verdict (TaskTransition.move TaskStatus.blocked) never w = barred _ j.approvals [] never
  moved-Verdict (TaskTransition.move to) never w = entered to never w

  pub dispatch-Verdict : (kind : EventKind) → e.kind ≡ kind → Concludes (dispatch kind e payer j)
  unfolding dispatch
  dispatch-Verdict approval_resolved kd = resolve_approval-Verdict kd
  dispatch-Verdict tool_call_requested kd =
      rw (ap is_running c.waits) (waits_on [] (λ x h. cc (h.kind, kd)))
  dispatch-Verdict github_operation_requested kd =
      rw (ap is_working c.waits) (waits_on [] (λ x h. cc (h.kind, kd)))
  dispatch-Verdict kind kd =
      moved-Verdict (task_next t.status kind) (λ x h. cc (h.kind, kd))
        (subst (λ s. StaysOff (task_next s kind)) (sym c.waits) (task_next-StaysOff kind))
