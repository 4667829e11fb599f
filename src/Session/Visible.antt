-- ===== src/Session/Visible.antt =====
-- What a snapshot shows of a log.
use mathlib.Core.Option.{some-injective}
use crust_core.Prelude.{
  ℕ, ◌≤◌, max, ◌≡◌, refl, sym, ap, subst, ◌⊎◌, inl, inr, Bool-cases, leb, Option-cases, Option,
  none, some, List, [], ◌∷◌, arith,
}
use crust_core.Types.Word.{EventSeq}
use crust_core.Kernel.Event.{Visibility, model_visible, internal_only}
use crust_core.Eventlog.Frame.{Decoded}
use crust_core.Eventlog.Log.{iter}
use crust_core.Session.View.{
  SessionView, up_to, with_range, selects, keep_frames, frames, greatest_seq,
}
use crust_core.Session.Snapshot.{
  TurnKind, turn_kind, Turn, Snapshot, snapshot, add_turn, turns_of, derive_snapshot,
}
use crust_core.Session.Selected.{
  Has, keep_frames-Has, Has-keep_frames, Selected, selects-Selected, Selected-selects, IsGreatest,
}

-- The frame is to be shown as a turn of the kind.
abbrev pub IsTurn : SessionView → EventSeq → TurnKind → Decoded → Type 0
IsTurn v at_seq k d =
    Selected v at_seq d
    × (d.frame.meta.visibility ≡ model_visible)
    × (turn_kind d.frame.meta.kind ≡ some k)

-- The turns show, in order, each frame of the list that is to be shown, with its payload redacted,
-- and nothing else.
pub data Renders (redact : List ℕ → List ℕ) (v : SessionView) (at_seq : EventSeq)
    : List Decoded → List Turn → Type 0 where
  done : Renders redact v at_seq [] []
  shows :
      {d : Decoded} {ds : List Decoded} {ts : List Turn} (k : TurnKind)
      → IsTurn v at_seq k d
      → Renders redact v at_seq ds ts
      → Renders redact v at_seq
          (d ∷ ds)
          (record { seq = d.frame.meta.seq; kind = k; text = redact d.payload } ∷ ts)
  skips :
      {d : Decoded} {ds : List Decoded} {ts : List Turn}
      → ((k : TurnKind) → ¬ IsTurn v at_seq k d)
      → Renders redact v at_seq ds ts
      → Renders redact v at_seq (d ∷ ds) ts

module _ (redact : List ℕ → List ℕ) (v : SessionView) (at_seq : EventSeq) where
  add_turn-Renders :
      (d : Decoded) (vis : Visibility) (kind : Option TurnKind) (ds : List Decoded) (ts : List Turn)
      → Selected v at_seq d
      → d.frame.meta.visibility ≡ vis
      → turn_kind d.frame.meta.kind ≡ kind
      → Renders redact v at_seq ds ts
      → Renders redact v at_seq (d ∷ ds) (add_turn redact d vis kind ts)
  add_turn-Renders d internal_only kind ds ts s e q h =
      skips (λ k (sel, vis, turn). ground (arith, vis, e)) h
  add_turn-Renders d model_visible none ds ts s e q h =
      skips (λ k (sel, vis, turn). ground (arith, turn, q)) h
  add_turn-Renders d model_visible (some k) ds ts s e q h = shows k (s, e, q) h

  turns_of-Renders :
      (ds : List Decoded)
      → Renders redact v at_seq ds
          (turns_of redact (keep_frames (selects (with_range (up_to at_seq) v)) ds))
  unfolding turns_of keep_frames
  turns_of-Renders [] = done
  turns_of-Renders (d ∷ ds) = elim (Bool-cases (selects (with_range (up_to at_seq) v) d.frame)) [
    | inl t ↦ rw t (
        add_turn-Renders d d.frame.meta.visibility (turn_kind d.frame.meta.kind) ds _
          (selects-Selected v at_seq d t) refl refl (turns_of-Renders ds))
    | inr t ↦ rw t (
        skips (λ k (sel, vis, turn). cc (Selected-selects v at_seq d sel, t)) (turns_of-Renders ds))
  ]

-- What the fold to the greatest number has found: one that it began with or a frame's, below which
-- no other lies.
record Folded (ds : List Decoded) (found : Option EventSeq) (m : EventSeq) : Type 0 where
  pub reached : (found ≡ some m) ⊎ ((d : Decoded) × (Has ds d) × (d.frame.meta.seq ≡ m))
  pub above : (x : EventSeq) → found ≡ some x → x ≤ m
  pub bound : (d : Decoded) → Has ds d → d.frame.meta.seq ≤ m

greatest_seq-Folded :
    (ds : List Decoded) (found : Option EventSeq) (m : EventSeq)
    → greatest_seq ds found ≡ some m
    → Folded ds found m
unfolding greatest_seq
greatest_seq-Folded [] found m e = record {
  reached = inl e;
  above = λ x q. ground (arith, e, q);
  bound = λ d h. absurd h;
}
greatest_seq-Folded (d ∷ ds) none m e =
    let r = greatest_seq-Folded ds (some d.frame.meta.seq) m e in
    record {
      reached = elim r.reached [
        | inl s ↦ inr (d, inl refl, some-injective _ _ s)
        | inr (x, h, s) ↦ inr (x, inr h, s)
      ];
      above = λ x q. ground arith;
      bound = λ x h. elim h [
        | inl s ↦ subst (λ y. y.frame.meta.seq ≤ m) s (r.above d.frame.meta.seq refl)
        | inr t ↦ r.bound x t
      ];
    }
greatest_seq-Folded (d ∷ ds) (some n) m e =
    let r = greatest_seq-Folded ds (some (max n d.frame.meta.seq)) m e in
    let top = r.above (max n d.frame.meta.seq) refl in
    record {
      reached = elim r.reached [
        | inl s ↦ either_max (some-injective _ _ s)
        | inr (x, h, s) ↦ inr (x, inr h, s)
      ];
      above = λ x q. omega (arith, top, some-injective _ _ q);
      bound = λ x h. elim h [
        | inl s ↦ subst (λ y. y.frame.meta.seq ≤ m) s (omega (arith, top))
        | inr t ↦ r.bound x t
      ];
    }
  where
    either_max :
        max n d.frame.meta.seq ≡ m
        → (some n ≡ some m) ⊎ ((x : Decoded) × (Has (d ∷ ds) x) × (x.frame.meta.seq ≡ m))
    either_max s = elim (Bool-cases (leb n d.frame.meta.seq)) [
      | inl c ↦ inr (d, inl refl, ground (arith, s, c))
      | inr c ↦ inl (ap some (ground (arith, s, c)))
    ]

-- The greatest sequence number of a frame of the log that is selected.
abbrev pub IsLatest : SessionView → EventSeq → EventSeq → Type 0
IsLatest v at_seq m = IsGreatest (λ d. Has (iter v.log.bytes) d × Selected v at_seq d) m

greatest_seq-IsLatest :
    (v : SessionView) (at_seq m : EventSeq)
    → greatest_seq (frames (with_range (up_to at_seq) v)) none ≡ some m
    → IsLatest v at_seq m
unfolding frames
greatest_seq-IsLatest v at_seq m e =
    let p = selects (with_range (up_to at_seq) v) in
    let log = iter v.log.bytes in
    let r = greatest_seq-Folded (keep_frames p log) none m e in
    elim r.reached [
      | inl s ↦ ground arith
      | inr (d, h, s) ↦
          let k = keep_frames-Has p log d h in
          record {
            frame = d;
            qualifies = (k.0, selects-Selected v at_seq d k.1);
            reached = s;
            bound = λ x (in_log, sel).
                r.bound x (Has-keep_frames p log x in_log (Selected-selects v at_seq x sel));
          }
    ]

snapshot_eq : (a b : Snapshot) → snapshot a ≡ snapshot b → a ≡ b
snapshot_eq a b e = ground arith

-- A snapshot shows, in order, exactly the frames of the log that are of the session's task, of the
-- view's job if it has one, not after `at_seq`, visible to the model, and turns; each with its
-- payload redacted. It names the session and the log's head, and stands at the greatest sequence
-- number of a frame of that task and job that is not after `at_seq`.
pub derive_snapshot-Renders :
    (redact : List ℕ → List ℕ) (v : SessionView) (at_seq : EventSeq) (s : Snapshot)
    → derive_snapshot redact v at_seq ≡ snapshot s
    → Renders redact v at_seq (iter v.log.bytes) s.turns
      × IsLatest v at_seq s.at_seq
      × (s.session ≡ v.session)
      × (s.head_hash ≡ v.log.head_hash)
unfolding derive_snapshot frames
derive_snapshot-Renders redact v at_seq s e =
    let ds = frames (with_range (up_to at_seq) v) in
    elim (Option-cases (greatest_seq ds none)) [
      | inl n ↦ ground arith
      | inr (m, g) ↦
          let q = snapshot_eq _ s (rw g at e) in
          (
            subst (Renders redact v at_seq (iter v.log.bytes)) (ap (λ x. x.turns) q)
                (turns_of-Renders redact v at_seq (iter v.log.bytes)),
            subst (IsLatest v at_seq) (ap (λ x. x.at_seq) q) (greatest_seq-IsLatest v at_seq m g),
            sym (ap (λ x. x.session) q),
            sym (ap (λ x. x.head_hash) q),
          )
    ]
