-- ===== src/Kernel/Authority/Handlers.antt =====
-- The handlers push a tool run only with an authority behind it.
use crust_core.Prelude.{
  ltb, ◌≡◌, refl, ap, Bool-cases, Option-cases, inl, inr, ◌⊎◌, is_some_of, true, Option, none, some,
  List, arith,
}
use crust_core.Types.Word.{JobId, ApprovalId}
use crust_core.Types.Status.{ApprovalResolution}
use crust_core.Policy.{PolicyDecision, PolicySnapshot, classify, allow, deny, require_approval}
use crust_core.Kernel.Event.{
  EventKind, Event, approval_resolved, tool_call_requested, github_operation_requested, user,
  is_user,
}
use crust_core.Kernel.State.{Kernel, TaskEntry, ApprovalEntry, find_approval, op_matches}
use crust_core.Kernel.Jobs.{is_runnable_job}
use crust_core.Kernel.Approvals.{
  run_if_runnable, ask_for, ask_once, act_on, classify_request, settle, is_pending, resolve_found,
  resolve_named, resolve_approval, or_irreversible,
}
use crust_core.Kernel.Step.{is_running, is_working, dispatch}
use crust_core.Kernel.Approvals.Tests.{op_matches-some, pending_of, user_of, awaited_of}
use crust_core.Kernel.Authority.{is_request, AllowedBy, GrantedBy, AllReleased}

run_if_runnable-Released :
    (o : Option JobId) (e : Event) (p : PolicySnapshot) (aps : List ApprovalEntry) (t : TaskEntry)
    (k' : Kernel)
    → ((jid : JobId) → o ≡ some jid → AllowedBy e p t jid ⊎ GrantedBy e aps t jid)
    → AllReleased e p aps t (k', run_if_runnable o t.id k')
unfolding run_if_runnable
run_if_runnable-Released none e p aps t k' why = tt
run_if_runnable-Released (some jid) e p aps t k' why =
    elim (Bool-cases (is_runnable_job jid t.id k')) [
      | inl r ↦ rw r ((r, why jid refl), tt)
      | inr r ↦ rw r tt
    ]

module _ (e : Event) (t : TaskEntry) (k : Kernel) where
  ask_once-Released :
      (o : Option ApprovalId) → AllReleased e k.policy k.approvals t (ask_once o e t k)
  unfolding ask_once ask_for
  ask_once-Released (some a) = tt
  ask_once-Released none = elim (Option-cases e.tool_call_id) [
    | inl c ↦ rw c tt
    | inr (c, is_c) ↦ rw is_c (tt, tt)
  ]

  act_on-Released :
      (d : PolicyDecision)
      → is_request e.kind ≡ true
      → is_working t.status ≡ true
      → classify k.policy (or_irreversible e.reversibility) ≡ d
      → AllReleased e k.policy k.approvals t (act_on d e t k)
  unfolding act_on
  act_on-Released allow r w c =
      run_if_runnable-Released e.job_id e k.policy k.approvals t k λ jid named.
        inl (record { requested = r; at_work = ground arith; allowed = c; names_job = named })
  act_on-Released (require_approval _) r w c = ask_once-Released t.awaiting
  act_on-Released (deny _) r w c = tt

  classify_request-Released :
      is_request e.kind ≡ true
      → is_working t.status ≡ true
      → AllReleased e k.policy k.approvals t (classify_request e t k)
  unfolding classify_request
  classify_request-Released r w =
      act_on-Released (classify k.policy (or_irreversible e.reversibility)) r w refl

  settle-Released :
      (r : Option ApprovalResolution) (a : ApprovalEntry)
      → ((jid : JobId)
          → r ≡ some ApprovalResolution.approve
          → a.job ≡ some jid
          → GrantedBy e k.approvals t jid)
      → AllReleased e k.policy k.approvals t (settle r a t k)
  unfolding settle
  settle-Released none a why = tt
  settle-Released (some ApprovalResolution.approve) a why =
      run_if_runnable-Released a.job e k.policy k.approvals t _
        λ jid named. inr (why jid refl named)
  settle-Released (some ApprovalResolution.deny) a why = tt

  resolve_found-Released :
      (o : Option ApprovalEntry) (aid : ApprovalId)
      → e.kind ≡ approval_resolved
      → e.actor ≡ user
      → e.approval_id ≡ some aid
      → t.awaiting ≡ some aid
      → find_approval aid k ≡ o
      → AllReleased e k.policy k.approvals t (resolve_found o e t k)
  unfolding resolve_found
  resolve_found-Released none aid kd u n w f = tt
  resolve_found-Released (some a) aid kd u n w f = elim (Bool-cases (is_pending a.status)) [
    | inr p ↦ rw p tt
    | inl p ↦ rw p (elim (Bool-cases (op_matches a.op e.tool_call_id)) [
      | inr q ↦ rw q tt
      | inl q ↦ rw q (elim (Bool-cases (ltb a.expires_at e.timestamp)) [
        | inl late ↦ rw late tt
        | inr soon ↦
            let c = op_matches-some a.op.tool_call_id e.tool_call_id q in
            rw soon (
              settle-Released e.resolution a λ jid approves named. record {
                resolves = kd;
                by_user = u;
                approves = approves;
                approval = a;
                aid = aid;
                on_record = f;
                names_approval = n;
                awaited = w;
                is_open = pending_of a.status p;
                call = c.0;
                bound_to = c.1;
                names_call = c.2;
                in_time = ground arith;
                names_job = named;
              })
      ])
    ])
  ]

  resolve_named-Released :
      (o : Option ApprovalId)
      → e.kind ≡ approval_resolved
      → e.actor ≡ user
      → e.approval_id ≡ o
      → AllReleased e k.policy k.approvals t (resolve_named o e t k)
  unfolding resolve_named
  resolve_named-Released none kd u n = tt
  resolve_named-Released (some aid) kd u n = elim (Bool-cases (is_some_of t.awaiting aid)) [
    | inr q ↦ rw q tt
    | inl q ↦
        rw q (
          resolve_found-Released (find_approval aid k) aid kd u n (awaited_of t.awaiting aid q)
            refl)
  ]

  resolve_approval-Released :
      e.kind ≡ approval_resolved → AllReleased e k.policy k.approvals t (resolve_approval e t k)
  unfolding resolve_approval
  resolve_approval-Released kd = elim (Bool-cases (is_user e.actor)) [
    | inr w ↦ rw w tt
    | inl w ↦ rw w (resolve_named-Released e.approval_id kd (user_of e.actor w) refl)
  ]

  pub dispatch-Released :
      (kind : EventKind)
      → e.kind ≡ kind
      → AllReleased e k.policy k.approvals t (dispatch kind e t k)
  unfolding dispatch
  dispatch-Released approval_resolved kd = resolve_approval-Released kd
  dispatch-Released tool_call_requested kd = elim (Bool-cases (is_running t.status)) [
    | inr w ↦ rw w tt
    | inl w ↦ rw w (classify_request-Released (ap is_request kd) (ground arith))
  ]
  dispatch-Released github_operation_requested kd = elim (Bool-cases (is_working t.status)) [
    | inr w ↦ rw w tt
    | inl w ↦ rw w (classify_request-Released (ap is_request kd) w)
  ]
  dispatch-Released kind kd = tt
