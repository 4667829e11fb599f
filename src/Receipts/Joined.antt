-- ===== src/Receipts/Joined.antt =====
-- When receipts join a log.
use crust_core.Prelude.{
  ℕ, ◌+◌, ◌==◌, ◌≡◌, ◌↔◌, refl, sym, ap, ◌∙◌, inl, inr, Bool-cases, Option-cases, ==_iff,
  if◌then◌else◌, true, Option, none, some, List, [], ◌∷◌, length, arith,
}
use crust_core.Receipts.Chain.{ToolReceipt}
use crust_core.Receipts.Join.{
  FrameRef, JoinStatus, get, or_insert, index_frames, is_id, check_receipt, join_from,
  verify_against_log,
}

-- The first frame with the sequence number.
unfoldable pub find_first : ℕ → List FrameRef → Option FrameRef
find_first seq [] = none
find_first seq (f ∷ fs) = if f.seq == seq then some f else find_first seq fs

abbrev else_find : Option FrameRef → Option FrameRef → Option FrameRef
else_find none later = later
else_find (some f) later = some f

get-same : (k j : ℕ) (m : List (ℕ × FrameRef)) → (j == k) ≡ true → get k m ≡ get j m
get-same k j m t = ap (λ (x : ℕ). get x m) (omega (arith, (==_iff j k).0 t))

get-or_insert :
    (k : ℕ) (f : FrameRef) (m : List (ℕ × FrameRef)) (later : Option FrameRef)
    → else_find (get k (or_insert f.seq f m)) later
      ≡ else_find (get k m) (if f.seq == k then some f else later)
unfolding get
get-or_insert k f m later = elim (Option-cases (get f.seq m)) [
  | inl e ↦ elim (Bool-cases (f.seq == k)) [
    | inl t ↦ rw (e, t, get-same k f.seq m t, e) refl
    | inr t ↦ rw (e, t) refl
  ]
  | inr (g, e) ↦ elim (Bool-cases (f.seq == k)) [
    | inl t ↦ rw (e, t, get-same k f.seq m t, e) refl
    | inr t ↦ rw (e, t) refl
  ]
]

get-index_frames :
    (k : ℕ) (fs : List FrameRef) (m : List (ℕ × FrameRef))
    → get k (index_frames fs m) ≡ else_find (get k m) (find_first k fs)
unfolding index_frames find_first
get-index_frames k [] m = elim (Option-cases (get k m)) [
  | inl e ↦ rw e refl
  | inr (g, e) ↦ rw e refl
]
get-index_frames k (f ∷ fs) m =
    get-index_frames k fs (or_insert f.seq f m) ∙ get-or_insert k f m (find_first k fs)

-- The map finds the first frame of the log with a sequence number.
pub get-index : (k : ℕ) (fs : List FrameRef) → get k (index_frames fs []) ≡ find_first k fs
unfolding get
get-index k fs = get-index_frames k fs []

-- The receipt's frame is in the log: a completed tool call of the receipt's task and job.
abbrev pub IsAnchored : List FrameRef → ToolReceipt → Type 0
IsAnchored frames r =
    (f : FrameRef) × (find_first r.event_seq frames ≡ some f)
    × (f.tool_completed ≡ true)
    × (f.task_id ≡ some r.task_id)
    × (f.job_id ≡ some r.job_id)

abbrev pub AreAnchored : List FrameRef → List ToolReceipt → Type 0
AreAnchored frames [] = Unit {0}
AreAnchored frames (r ∷ rs) = IsAnchored frames r × AreAnchored frames rs

is_id_iff : (o : Option ℕ) (id : ℕ) → (is_id o id ≡ true) ↔ (o ≡ some id)
is_id_iff none id = ground arith
is_id_iff (some x) id = ground arith

-- The frame that was found is a completed tool call of the receipt's task and job.
abbrev Fits : Option FrameRef → ToolReceipt → Type 0
Fits found r =
    (f : FrameRef) × (found ≡ some f)
    × (f.tool_completed ≡ true)
    × (f.task_id ≡ some r.task_id)
    × (f.job_id ≡ some r.job_id)

some_eq : (f g : FrameRef) → some f ≡ some g → f ≡ g
some_eq f g e = ground arith

found_eq : (found : Option FrameRef) (f g : FrameRef) → found ≡ some f → found ≡ some g → f ≡ g
found_eq found f g e q = some_eq f g (sym e ∙ q)

check_receipt-Fits :
    (r : ToolReceipt) (found : Option FrameRef) → check_receipt r found ≡ none → Fits found r
unfolding check_receipt
check_receipt-Fits r none e = ground arith
check_receipt-Fits r (some f) e =
    let t = is_id_iff f.task_id r.task_id in
    let j = is_id_iff f.job_id r.job_id in (f, refl, ground arith, ground arith, ground arith)

check_receipt_complete :
    (r : ToolReceipt) (found : Option FrameRef) → Fits found r → check_receipt r found ≡ none
unfolding check_receipt
check_receipt_complete r found (f, e, c, t, j) =
    rw (e, c, (is_id_iff f.task_id r.task_id).1 t, (is_id_iff f.job_id r.job_id).1 j) refl

joined_eq : (a b : ℕ) → JoinStatus.joined a ≡ JoinStatus.joined b → a ≡ b
joined_eq a b e = ground arith

join_from_sound :
    (frames : List FrameRef) (total index n : ℕ) (rs : List ToolReceipt)
    → join_from (index_frames frames []) total index rs ≡ JoinStatus.joined n
    → AreAnchored frames rs × (total ≡ n)
unfolding join_from
join_from_sound frames total index n [] e = (tt, joined_eq total n e)
join_from_sound frames total index n (r ∷ rs) e =
    elim (Option-cases (check_receipt r (get r.event_seq (index_frames frames [])))) [
      | inr (reason, c) ↦ ground (arith, rw c at e)
      | inl c ↦
          let more = join_from_sound frames total (index + 1) n rs (rw c at e) in
          (
            (
              check_receipt-Fits r (find_first r.event_seq frames)
                  (rw (get-index r.event_seq frames) at c),
              more.0,
            ),
            more.1,
          )
    ]

join_from_complete :
    (frames : List FrameRef) (total index : ℕ) (rs : List ToolReceipt)
    → AreAnchored frames rs
    → join_from (index_frames frames []) total index rs ≡ JoinStatus.joined total
unfolding join_from
join_from_complete frames total index [] h = refl
join_from_complete frames total index (r ∷ rs) h =
    rw
      (
        get-index r.event_seq frames,
        check_receipt_complete r (find_first r.event_seq frames) h.0,
        join_from_complete frames total (index + 1) rs h.1,
      )
      refl

-- Receipts join a log exactly when each has its frame there: the first frame with the receipt's
-- sequence number is a completed tool call of the receipt's task and job. The count is their number.
pub verify_against_log-AreAnchored :
    (receipts : List ToolReceipt) (frames : List FrameRef) (n : ℕ)
    → (verify_against_log receipts frames ≡ JoinStatus.joined n)
      ↔ (AreAnchored frames receipts × (length receipts ≡ n))
unfolding verify_against_log
verify_against_log-AreAnchored receipts frames n = (
  λ e. join_from_sound frames (length receipts) 0 n receipts e,
  λ (h, e). join_from_complete frames (length receipts) 0 receipts h ∙ ap JoinStatus.joined e,
)
