-- ===== src/Kernel/Tasks/Handlers.antt =====
-- Each handler of the kernel, seen from its task: the record that it leaves behind.
use crust_core.Prelude.{
  ℕ, ◌≡◌, refl, sym, ap, ◌∙◌, arith, Bool-cases, inl, inr, is_some_of, ltb, true, false, Option,
  none, some,
}
use crust_core.Prelude.Arena.{modify, key-find}
use crust_core.Types.Status.{TaskStatus, ApprovalStatus, ApprovalResolution, is_terminal}
use crust_core.Policy.{PolicyDecision, classify, allow, deny, require_approval}
use crust_core.Kernel.Event.{Event, user, is_user}
use crust_core.Types.Word.{ApprovalId}
use crust_core.Kernel.Approvals.Tests.{awaited_of, user_of}
use crust_core.Kernel.State
use crust_core.Kernel.State.{
  approval_key, op_matches, Kernel, TaskEntry, ApprovalEntry, BlockReason, task_key, find_task,
  find_approval, update_task, budget_exhausted,
}
use crust_core.Kernel.Tables.{TaskTransition}
use crust_core.Kernel.Approvals.{
  block, set_blocked, enter, await_approval, set_task_status, ask_for, ask_once, act_on,
  classify_request, settle, resolve_found, resolve_named, resolve_approval, or_irreversible,
  is_pending, minted,
}
use crust_core.Kernel.Step.{is_working, is_awaiting, by_table}
use crust_core.Kernel.Tasks.{◌⟶◌, IsConsistent}
use crust_core.Kernel.Tasks.Edges.{Follows}
use crust_core.Kernel.Tasks.Effects.{
  Effect, Effect-none, Effect-update, ApprovalEffect, kept, closed, opened, ByUser, Moves-block,
  Moves-approve, Moves-await, Moves-enter,
}

held_test : (o : Option ApprovalId) (aid : ApprovalId) → o ≡ some aid → is_some_of o aid ≡ true
held_test o aid h = ground arith

-- The handlers of `match event.kind`, on a live and consistent task.
module _ (e : Event) (t : TaskEntry) (k : Kernel) (found : find_task t.id k ≡ some t)
    (ok : IsConsistent t) (live : is_terminal t.status ≡ false) where
  pub Effect-block :
      (r : BlockReason) (k' : Kernel)
      → k'.tasks ≡ modify task_key t.id (block r) k.tasks
      → ApprovalEffect e t.id t.awaiting none k k'
      → Effect e t k k'
  Effect-block r k' same a = Effect-update e t k found k' (block r) (Moves-block t ok r live) same a

  -- A block that leaves the approvals alone.
  pub Effect-set_blocked : (r : BlockReason) → Effect e t k (set_blocked t.id r k)
  Effect-set_blocked r = Effect-block r (set_blocked t.id r k) refl (kept refl refl (inr refl))

  pub Effect-set_task_status :
      (to : TaskStatus)
      → t.status ⟶ to
      → is_awaiting to ≡ false
      → Effect e t k (set_task_status t.id to k)
  unfolding set_task_status
  Effect-set_task_status TaskStatus.blocked edge a = Effect-set_blocked State.risk_found
  Effect-set_task_status TaskStatus.awaiting_approval edge a = cc
  Effect-set_task_status to edge a =
      Effect-update e t k found (update_task t.id (enter to) k) (enter to)
        (Moves-enter t ok to edge a refl) refl (kept refl refl (inr refl))

  pub Effect-follow :
      (tr : TaskTransition) → Follows t.status tr → Effect e t k (by_table tr t.id k)
  unfolding by_table
  Effect-follow TaskTransition.stay f = Effect-none e t k found ok
  Effect-follow (TaskTransition.move to) f = Effect-set_task_status to f.0 f.1

  pub Effect-ask_for :
      (c : Option ℕ) → is_working t.status ≡ true → Effect e t k (ask_for c e t k).0
  unfolding ask_for
  Effect-ask_for none w = Effect-set_blocked State.risk_found
  Effect-ask_for (some c) w =
      Effect-update e t k found (ask_for (some c) e t k).0 (await_approval k.next_approval)
        (Moves-await t ok k.next_approval w) refl
        (opened (minted c e t k) refl refl refl refl refl refl refl)

  pub Effect-ask_once :
      (a : Option ℕ) → is_working t.status ≡ true → Effect e t k (ask_once a e t k).0
  unfolding ask_once
  Effect-ask_once none w = Effect-ask_for e.tool_call_id w
  Effect-ask_once (some a) w = Effect-none e t k found ok

  pub Effect-act_on :
      (d : PolicyDecision) → is_working t.status ≡ true → Effect e t k (act_on d e t k).0
  unfolding act_on
  Effect-act_on allow w = Effect-none e t k found ok
  Effect-act_on (require_approval _) w = Effect-ask_once t.awaiting w
  Effect-act_on (deny _) w = Effect-set_blocked State.policy_denied

  pub Effect-classify_request : is_working t.status ≡ true → Effect e t k (classify_request e t k).0
  unfolding classify_request
  Effect-classify_request w = Effect-act_on (classify k.policy (or_irreversible e.reversibility)) w

  -- A resolution that closes the approval that the task awaits.
  Effect-settle :
      (r : Option ApprovalResolution) (a : ApprovalEntry)
      → t.awaiting ≡ some a.id
      → ByUser e a.id
      → Effect e t k (settle r a t k).0
  unfolding settle
  Effect-settle none a held by = Effect-none e t k found ok
  Effect-settle (some ApprovalResolution.approve) a held by =
      Effect-update e t k found (settle (some ApprovalResolution.approve) a t k).0
        (enter TaskStatus.running) (Moves-approve t ok a.id (held_test t.awaiting a.id held)) refl
        (closed a.id ApprovalStatus.approved held refl refl refl (inr by))
  Effect-settle (some ApprovalResolution.deny) a held by =
      Effect-block State.approval_denied (settle (some ApprovalResolution.deny) a t k).0 refl
        (closed a.id ApprovalStatus.denied held refl refl refl (inr by))

  Effect-resolve_found :
      (o : Option ApprovalEntry) (aid : ApprovalId)
      → find_approval aid k ≡ o
      → t.awaiting ≡ some aid
      → ByUser e aid
      → Effect e t k (resolve_found o e t k).0
  unfolding resolve_found
  Effect-resolve_found none aid f held by = Effect-none e t k found ok
  Effect-resolve_found (some a) aid f held by = elim (Bool-cases (is_pending a.status)) [
    | inr p ↦ rw p (Effect-none e t k found ok)
    | inl p ↦ rw p (elim (Bool-cases (op_matches a.op e.tool_call_id)) [
      | inr q ↦ rw q (Effect-none e t k found ok)
      | inl q ↦
          let same : a.id ≡ aid = key-find approval_key aid k.approvals f in
          let held' : t.awaiting ≡ some a.id = held ∙ ap some (sym same) in
          let by' : ByUser e a.id = record {
            by_user = by.by_user;
            names = by.names ∙ ap some (sym same);
          } in
          rw q (elim (Bool-cases (ltb a.expires_at e.timestamp)) [
            | inl r ↦ rw r (
                Effect-block State.approval_expired _ refl
                  (closed a.id ApprovalStatus.expired held' refl refl refl (inl refl)))
            | inr r ↦ rw r (Effect-settle e.resolution a held' by')
          ])
    ])
  ]

  Effect-resolve_named :
      (o : Option ApprovalId)
      → e.actor ≡ user
      → e.approval_id ≡ o
      → Effect e t k (resolve_named o e t k).0
  unfolding resolve_named
  Effect-resolve_named none u n = Effect-none e t k found ok
  Effect-resolve_named (some aid) u n = elim (Bool-cases (is_some_of t.awaiting aid)) [
    | inl w ↦ rw w (
        Effect-resolve_found (find_approval aid k) aid refl (awaited_of t.awaiting aid w)
          (record { by_user = u; names = n }))
    | inr w ↦ rw w (Effect-none e t k found ok)
  ]

  pub Effect-resolve_approval : Effect e t k (resolve_approval e t k).0
  unfolding resolve_approval
  Effect-resolve_approval = elim (Bool-cases (is_user e.actor)) [
    | inl w ↦ rw w (Effect-resolve_named e.approval_id (user_of e.actor w) refl)
    | inr w ↦ rw w (Effect-none e t k found ok)
  ]
