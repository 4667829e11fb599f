-- ===== src/Session/Leased.antt =====
-- What the derived lease says of the frames.
use crust_core.Prelude.{
  ◌≡◌, ◌↔◌, refl, sym, ap, ◌∙◌, ◌⊎◌, inl, inr, Bool-cases, Option-cases, Bool, true, false, Option,
  none, some, List, [], ◌∷◌, ◌++◌, arith,
}
use crust_core.Types.Word.{JobId, LeaseOwner, EventSeq}
use crust_core.Kernel.Event.{EventKind}
use crust_core.Eventlog.Frame.{Decoded}
use crust_core.Session.View.{SessionView, frames}
use crust_core.Session.Lease.{
  CancellationState, killed, failed, is_live, LeaseStatus, unleased, leased, LeaseView,
  lease_owner_in, take_lease, end_run, derive_step, derive_from, derive,
}

-- The lease that a frame grants: it is a `JobLeased` frame with a job and an owner.
abbrev grant : EventKind → Option JobId → Option LeaseOwner → EventSeq → Option LeaseStatus
grant EventKind.job_leased (some job) (some owner) seq = some (leased job owner seq)
grant _ _ _ seq = none

abbrev pub grant_of : Decoded → Option LeaseStatus
grant_of d = grant d.frame.meta.kind d.frame.meta.job_id (lease_owner_in d.payload) d.frame.meta.seq

abbrev or_old : Option LeaseStatus → LeaseStatus → LeaseStatus
or_old none old = old
or_old (some s) old = s

take_lease-grant :
    (job : Option JobId) (owner : Option LeaseOwner) (seq : EventSeq) (old : LeaseStatus)
    → take_lease job owner seq old ≡ or_old (grant EventKind.job_leased job owner seq) old
take_lease-grant none owner seq old = refl
take_lease-grant (some j) none seq old = refl
take_lease-grant (some j) (some o) seq old = refl

end_run-lease :
    (s : CancellationState) (seq : EventSeq) (v : LeaseView) → (end_run s seq v).lease ≡ v.lease
end_run-lease s seq v = elim (Bool-cases (is_live v.cancellation)) [
  | inl t ↦ rw t refl
  | inr t ↦ rw t refl
]

step-lease :
    (d : Decoded) (k : EventKind) (v : LeaseView)
    → (derive_step d k v).lease
      ≡ or_old (grant k d.frame.meta.job_id (lease_owner_in d.payload) d.frame.meta.seq) v.lease
unfolding derive_step
step-lease d EventKind.job_leased v =
    take_lease-grant d.frame.meta.job_id (lease_owner_in d.payload) d.frame.meta.seq v.lease
step-lease d EventKind.task_killed v = end_run-lease killed d.frame.meta.seq v
step-lease d EventKind.task_failed v = end_run-lease failed d.frame.meta.seq v
step-lease d _ v = refl

-- No frame grants a lease.
abbrev pub NoGrant : List Decoded → Type 0
NoGrant [] = Unit {0}
NoGrant (d ∷ ds) = (grant_of d ≡ none) × NoGrant ds

-- The last frame that grants a lease grants `s`.
abbrev pub LastGrant : List Decoded → LeaseStatus → Type 0
LastGrant ds s =
    (before : List Decoded) × (d : Decoded) × (after : List Decoded) × (ds ≡ before ++ (d ∷ after))
    × (grant_of d ≡ some s)
    × NoGrant after

derive_from-lease :
    (ds : List Decoded) (v : LeaseView)
    → (NoGrant ds × ((derive_from ds v).lease ≡ v.lease)) ⊎ LastGrant ds (derive_from ds v).lease
unfolding derive_from
derive_from-lease [] v = inl (tt, refl)
derive_from-lease (d ∷ ds) v = elim (derive_from-lease ds (derive_step d d.frame.meta.kind v)) [
  | inr (before, x, after, e, g, n) ↦ inr (d ∷ before, x, after, ap (λ y. d ∷ y) e, g, n)
  | inl (n, e) ↦ elim (Option-cases (grant_of d)) [
    | inl g ↦ inl ((g, n), e ∙ step-lease d d.frame.meta.kind v ∙ rw g refl)
    | inr (s, g) ↦
        inr
          ([], d, ds, refl, g ∙ ap some (sym (e ∙ step-lease d d.frame.meta.kind v ∙ rw g refl)), n)
  ]
]

-- The derived lease is the one that the last granting frame of the session grants, or no frame
-- grants any and there is none.
pub derive-LastGrant :
    (v : SessionView)
    → (NoGrant (frames v) × ((derive v).lease ≡ unleased)) ⊎ LastGrant (frames v) (derive v).lease
unfolding derive
derive-LastGrant v = derive_from-lease (frames v) _

abbrev pub ends_run : EventKind → Bool
ends_run EventKind.task_killed = true
ends_run EventKind.task_failed = true
ends_run _ = false

-- No frame kills or fails the task.
abbrev pub NeverEnds : List Decoded → Type 0
NeverEnds [] = Unit {0}
NeverEnds (d ∷ ds) = (ends_run d.frame.meta.kind ≡ false) × NeverEnds ds

end_run-ends :
    (s : CancellationState) (seq : EventSeq) (v : LeaseView)
    → is_live s ≡ false
    → is_live (end_run s seq v).cancellation ≡ false
end_run-ends s seq v h = elim (Bool-cases (is_live v.cancellation)) [
  | inl t ↦ rw t h
  | inr t ↦ rw t t
]

never_live : {x y : Bool} → x ≡ false → (x ≡ true) ↔ ((true ≡ false) × (y ≡ true))
never_live e = (λ h. ground (arith, e, h), λ h. ground (arith, h.0))

step-live :
    (d : Decoded) (k : EventKind) (v : LeaseView)
    → (is_live (derive_step d k v).cancellation ≡ true)
      ↔ ((ends_run k ≡ false) × (is_live v.cancellation ≡ true))
unfolding derive_step
step-live d EventKind.task_killed v = never_live (end_run-ends killed d.frame.meta.seq v refl)
step-live d EventKind.task_failed v = never_live (end_run-ends failed d.frame.meta.seq v refl)
step-live d _ v = (λ e. (refl, e), λ h. h.1)

derive_from-live :
    (ds : List Decoded) (v : LeaseView)
    → (is_live (derive_from ds v).cancellation ≡ true)
      ↔ (NeverEnds ds × (is_live v.cancellation ≡ true))
unfolding derive_from
derive_from-live [] v = (λ e. (tt, e), λ h. h.1)
derive_from-live (d ∷ ds) v =
    let more = derive_from-live ds (derive_step d d.frame.meta.kind v) in
    let one = step-live d d.frame.meta.kind v in
    (
      λ e. (((one.0 (more.0 e).1).0, (more.0 e).0), (one.0 (more.0 e).1).1),
      λ h. more.1 (h.0.1, one.1 (h.0.0, h.1)),
    )

-- A session is live exactly when none of its frames kills or fails the task.
pub derive-live :
    (v : SessionView) → (is_live (derive v).cancellation ≡ true) ↔ NeverEnds (frames v)
unfolding derive
derive-live v = let r = derive_from-live (frames v) _ in (λ e. (r.0 e).0, λ h. r.1 (h, refl))
