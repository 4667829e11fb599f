-- ===== src/Session/Selected.antt =====
-- Which frames of a log the filter of a view picks, said of the frame itself.
use crust_core.Prelude.{
  ℕ, ◌≤◌, ==_refl, ==_iff, ◌≡◌, refl, sym, ap, subst, ◌⊎◌, inl, inr, Bool-cases, Bool, true, Option,
  none, some, List, [], ◌∷◌, arith,
}
use crust_core.Types.Word.{JobId, EventSeq}
use crust_core.Eventlog.Frame.{EventFrame, Decoded}
use crust_core.Session.View.{SessionView, up_to, with_range, in_job, selects, keep_frames}
use crust_core.Receipts.Join.{is_id}

-- The list holds the frame.
abbrev pub Has : List Decoded → Decoded → Type 0
Has [] d = ⊥
Has (x ∷ xs) d = (x ≡ d) ⊎ Has xs d

pub keep_frames-Has :
    (p : EventFrame → Bool) (ds : List Decoded) (d : Decoded)
    → Has (keep_frames p ds) d
    → Has ds d × (p d.frame ≡ true)
unfolding keep_frames
keep_frames-Has p [] d h = absurd h
keep_frames-Has p (x ∷ ds) d h = elim (Bool-cases (p x.frame)) [
  | inr t ↦ let more = keep_frames-Has p ds d (rw t at h) in (inr more.0, more.1)
  | inl t ↦ elim (rw t at h) [
    | inl e ↦ (inl e, subst (λ y. p y.frame ≡ true) e t)
    | inr q ↦ let more = keep_frames-Has p ds d q in (inr more.0, more.1)
  ]
]

-- A frame that passes the filter is kept.
pub Has-keep_frames :
    (p : EventFrame → Bool) (ds : List Decoded) (d : Decoded)
    → Has ds d
    → p d.frame ≡ true
    → Has (keep_frames p ds) d
unfolding keep_frames
Has-keep_frames p [] d h e = absurd h
Has-keep_frames p (x ∷ ds) d (inl s) e = rw (subst (λ y. p y.frame ≡ true) (sym s) e) (inl s)
Has-keep_frames p (x ∷ ds) d (inr h) e = elim (Bool-cases (p x.frame)) [
  | inl t ↦ rw t (inr (Has-keep_frames p ds d h e))
  | inr t ↦ rw t (Has-keep_frames p ds d h e)
]

-- Where the view has a job, the frame's job is that one.
abbrev pub OfJob : Option JobId → Option JobId → Type 0
OfJob none frame_job = Unit {0}
OfJob (some j) frame_job = frame_job ≡ some j

-- The frame is of the session's task, of the view's job if it has one, and not after `at_seq`.
abbrev pub Selected : SessionView → EventSeq → Decoded → Type 0
Selected v at_seq d =
    (d.frame.meta.task_id ≡ some v.session)
    × (OfJob v.job d.frame.meta.job_id)
    × (d.frame.meta.seq ≤ at_seq)

is_id-some : (o : Option ℕ) (i : ℕ) → is_id o i ≡ true → o ≡ some i
is_id-some none i e = ground arith
is_id-some (some x) i e = ap some ((==_iff x i).0 e)

in_job-OfJob : (o job : Option JobId) → in_job o job ≡ true → OfJob o job
in_job-OfJob none job e = tt
in_job-OfJob (some j) job e = is_id-some job j e

OfJob-in_job : (o job : Option JobId) → OfJob o job → in_job o job ≡ true
OfJob-in_job none job h = refl
OfJob-in_job (some j) job h = rw h (==_refl j)

pub selects-Selected :
    (v : SessionView) (at_seq : EventSeq) (d : Decoded)
    → selects (with_range (up_to at_seq) v) d.frame ≡ true
    → Selected v at_seq d
unfolding selects
selects-Selected v at_seq d e = (
  is_id-some d.frame.meta.task_id v.session (ground arith),
  in_job-OfJob v.job d.frame.meta.job_id (ground arith),
  ground arith,
)

pub Selected-selects :
    (v : SessionView) (at_seq : EventSeq) (d : Decoded)
    → Selected v at_seq d
    → selects (with_range (up_to at_seq) v) d.frame ≡ true
unfolding selects
Selected-selects v at_seq d (task, job, bound) =
    rw (task, ==_refl v.session, OfJob-in_job v.job d.frame.meta.job_id job) (ground arith)

-- The number is the greatest sequence number of a frame that qualifies.
pub record IsGreatest (P : Decoded → Type 0) (m : EventSeq) : Type 0 where
  pub frame : Decoded
  pub qualifies : P frame
  pub reached : frame.frame.meta.seq ≡ m
  pub bound : (d : Decoded) → P d → d.frame.meta.seq ≤ m
