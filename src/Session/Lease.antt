-- ===== src/Session/Lease.antt =====
-- The lease and the cancellation of a session, derived from its frames (lease.rs). `resume` does not
-- consult them.
use crust_core.Prelude.{
  ℕ, ◌==◌, if◌then◌else◌, Bool, true, false, Option, none, some, List, [], ◌∷◌,
}
use crust_core.Prelude.Bytes.{to_le, from_le, split}
use crust_core.Types.Word.{JobId, LeaseOwner, EventSeq}
use crust_core.Kernel.Event.{EventKind}
use crust_core.Eventlog.Frame.{Decoded}
use crust_core.Session.View.{SessionView, frames}

pub data CancellationState : Type 0 where
  live killed failed : CancellationState

abbrev pub is_live : CancellationState → Bool
is_live live = true
is_live _ = false

pub data LeaseStatus : Type 0 where
  unleased : LeaseStatus
  leased : JobId → LeaseOwner → EventSeq → LeaseStatus

pub record LeaseView : Type 0 where
  pub lease : LeaseStatus
  pub cancellation : CancellationState
  pub terminal_seq : Option EventSeq

abbrev pub owner_of : Option (List ℕ × List ℕ) → Option LeaseOwner
owner_of none = none
owner_of (some (bytes, rest)) = some (from_le bytes)

-- `frame_lease_owner`, of a `JobLeased` frame
unfoldable pub lease_owner_in : List ℕ → Option LeaseOwner
lease_owner_in payload = owner_of (split 8 payload)

-- `encode_lease_payload`
abbrev pub encode_lease_payload : LeaseOwner → List ℕ
encode_lease_payload owner = to_le 8 owner

abbrev pub take_lease : Option JobId → Option LeaseOwner → EventSeq → LeaseStatus → LeaseStatus
take_lease (some job) (some owner) seq old = leased job owner seq
take_lease _ _ seq old = old

abbrev pub end_run : CancellationState → EventSeq → LeaseView → LeaseView
end_run state seq v =
    if is_live v.cancellation then record v { cancellation = state; terminal_seq = some seq } else v

-- The body of the loop of `LeaseView::derive`.
unfoldable pub derive_step : Decoded → EventKind → LeaseView → LeaseView
derive_step d EventKind.job_leased v = record v {
  lease = take_lease d.frame.meta.job_id (lease_owner_in d.payload) d.frame.meta.seq v.lease;
}
derive_step d EventKind.task_killed v = end_run killed d.frame.meta.seq v
derive_step d EventKind.task_failed v = end_run failed d.frame.meta.seq v
derive_step d _ v = v

unfoldable pub derive_from : List Decoded → LeaseView → LeaseView
derive_from [] v = v
derive_from (d ∷ ds) v = derive_from ds (derive_step d d.frame.meta.kind v)

abbrev pub no_lease : LeaseView
no_lease = record { lease = unleased; cancellation = live; terminal_seq = none }

-- `LeaseView::derive`
unfoldable pub derive : SessionView → LeaseView
derive v = derive_from (frames v) no_lease

-- `LeaseView::owned_by`
abbrev pub owned_by : LeaseOwner → LeaseStatus → Bool
owned_by owner unleased = false
owned_by owner (leased job o seq) = o == owner
