-- ===== src/Session/Resumed.antt =====
-- When a run is resumed, and what it is resumed from.
use crust_core.Prelude.{ℕ, ◌≡◌, ◌↔◌, refl, sym, ap, subst, ◌⊎◌, none, List, length, arith}
use crust_core.Eventlog.Frame.{Decoded}
use crust_core.Eventlog.Log.{genesis_prev_hash, ChainStatus, EventLog, verify, verify_to_head}
use crust_core.Eventlog.Sound.{IsChain}
use crust_core.Eventlog.Verified.{verify-IsChain}
use crust_core.Eventlog.Binding.{Forgery, verify_to_head-binds}
use crust_core.Eventlog.Iterated.{iter-IsChain}
use crust_core.Receipts.Chain.{ToolReceipt}
use crust_core.Receipts.Join.{JoinStatus, verify_against_log}
use crust_core.Receipts.Joined.{AreAnchored, verify_against_log-AreAnchored}
use crust_core.Session.View.{SessionId, SessionView, new_view, frame_refs, refs_of}
use crust_core.Session.Resume.{
  resumed, refusal, check_join, on_status, after_join, resume, resume_to_head,
}

-- A resumption went through the join and the verification.
passed :
    (log : EventLog) (session : SessionId) (j : JoinStatus) (s : ChainStatus) (v : SessionView)
    → after_join (refusal j) (on_status log session s) ≡ resumed v
    → (v ≡ new_view log session)
      × ((m : ℕ) × (j ≡ JoinStatus.joined m))
      × ((n : ℕ) × (s ≡ ChainStatus.intact n))
passed log session (JoinStatus.broken i r) s v e = ground arith
passed log session (JoinStatus.joined m) (ChainStatus.broken i r) v e = ground arith
passed log session (JoinStatus.joined m) ChainStatus.unfinished v e = ground arith
passed log session (JoinStatus.joined m) (ChainStatus.intact n) v e =
    (ground arith, (m, refl), (n, refl))

refs-IsChain :
    (log : EventLog) (ds : List Decoded)
    → IsChain genesis_prev_hash none log.bytes ds
    → frame_refs log ≡ refs_of ds
unfolding frame_refs
refs-IsChain log ds c = ap refs_of (iter-IsChain log.bytes ds c)

-- A run is resumed exactly when the log is a chain of frames, each sealed and linked to the one
-- before, and each receipt has its completed tool call among them. The view is then the whole
-- session. Nothing else is asked: neither the lease nor a frame that says that the task was killed
-- or has failed keeps a run from being resumed.
pub resume-IsChain :
    (log : EventLog) (session : SessionId) (receipts : List ToolReceipt) (v : SessionView)
    → (resume log session receipts ≡ resumed v) ↔ (
        (v ≡ new_view log session)
        × ((ds : List Decoded) × (IsChain genesis_prev_hash none log.bytes ds)
            × AreAnchored (refs_of ds) receipts))
unfolding resume check_join
resume-IsChain log session receipts v = (
  λ e.
      let (same, (m, j), (n, s)) =
        passed log session (verify_against_log receipts (frame_refs log)) (verify log) v e in
      let (ds, c, count) = (verify-IsChain log n).0 s in
      (
        same,
        (
          ds,
          c,
          subst (λ refs. AreAnchored refs receipts) (refs-IsChain log ds c)
              ((verify_against_log-AreAnchored receipts (frame_refs log) m).0 j).0,
        ),
      ),
  λ (same, (ds, c, h)).
      rw
        (
          (verify_against_log-AreAnchored receipts (frame_refs log) (length receipts)).1
              (subst (λ refs. AreAnchored refs receipts) (sym (refs-IsChain log ds c)) h, refl),
          (verify-IsChain log (length ds)).1 (ds, c, refl),
        )
        (ap resumed (sym same)),
)

-- Two logs resumed up to the same head hold the same bytes; otherwise they hold frames with
-- different bytes and the same digest, or a frame whose digest is the genesis hash.
pub resume_to_head-binds :
    (log other : EventLog) (session : SessionId) (receipts receipts' : List ToolReceipt)
    (head : List ℕ) (v w : SessionView)
    → resume_to_head log session receipts head ≡ resumed v
    → resume_to_head other session receipts' head ≡ resumed w
    → (log.bytes ≡ other.bytes) ⊎ Forgery log.bytes other.bytes
unfolding resume_to_head check_join
resume_to_head-binds log other session receipts receipts' head v w e q =
    let a =
      passed log session (verify_against_log receipts (frame_refs log)) (verify_to_head head log) v
        e in
    let b =
      passed other session (verify_against_log receipts' (frame_refs other))
        (verify_to_head head other) w q in
    verify_to_head-binds log other head a.2.0 b.2.0 a.2.1 b.2.1
