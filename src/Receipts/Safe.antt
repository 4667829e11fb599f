-- ===== src/Receipts/Safe.antt =====
-- Reading a receipt never goes past the end of the bytes.
use crust_core.Prelude.{
  ℕ, zero, suc, ◌+◌, ◌-◌, ◌*◌, ◌≤◌, ◌==◌, ltb, ◌≡◌, ◌≢◌, refl, inl, inr, true, false, Bool-cases,
  some, List, [], ◌∷◌, length, take, arith,
}
use crust_core.Prelude.Bytes.{from_le, split}
use crust_core.Prelude.Text.{text_eq}
use crust_core.Types.Hash.{drop}
use crust_core.Receipts.Chain.{ToolReceipt, max_receipt_artifacts}
use crust_core.Receipts.Record.{
  ok, panicked, Reader, ◌>>=◌, pure, receipt_magic, receipt_fixed_bytes, read, read_fields,
  read_artifacts, with_count, from_bytes,
}

-- On `k` bytes or more, `p` succeeds and reads `k` of them.
abbrev Needs : {A : Type 0} → ℕ → Reader A → Type 0
Needs {A} k p =
    (bs : List ℕ)
    → k ≤ length bs
    → (a : A) × (rest : List ℕ) × (p bs ≡ ok (a, rest)) × (length rest + k ≡ length bs)

pure-Needs : {A : Type 0} (a : A) → Needs 0 (pure a)
pure-Needs a bs h = (a, bs, refl, omega arith)

split_enough :
    (n : ℕ) (bs : List ℕ)
    → n ≤ length bs
    → (a : List ℕ) × (rest : List ℕ) × (split n bs ≡ some (a, rest)) × (length rest + n ≡ length bs)
unfolding split
split_enough zero bs h = ([], bs, refl, omega arith)
split_enough (suc n) [] h = absurd (omega arith)
split_enough (suc n) (b ∷ bs) h =
    let (a, rest, e, l) = split_enough n bs (omega arith) in
    (b ∷ a, rest, rw e refl, omega (arith, l))

read-Needs : (n : ℕ) → Needs n (read n)
read-Needs n bs h = let (a, rest, e, l) = split_enough n bs h in (a, rest, rw e refl, l)

bind-Needs :
    {A B : Type 0} (i j : ℕ) (p : Reader A) (f : A → Reader B)
    → Needs i p
    → ((a : A) → Needs j (f a))
    → Needs (i + j) (p >>= f)
bind-Needs i j p f hp hf bs h =
    let (a, mid, e, l) = hp bs (omega arith) in
    let (b, rest, q, m) = hf a mid (omega (arith, l)) in (b, rest, rw e q, omega (arith, l, m))

read_fields-Needs : Needs 216 read_fields
unfolding read_fields
read_fields-Needs = bind-Needs 16 200 (read 16) _ (read-Needs 16) (λ task_id.
    bind-Needs 16 184 (read 16) _ (read-Needs 16) (λ job_id.
      bind-Needs 16 168 (read 16) _ (read-Needs 16) (λ tool_call_id.
        bind-Needs 8 160 (read 8) _ (read-Needs 8) (λ event_seq.
          bind-Needs 32 128 (read 32) _ (read-Needs 32) (λ tool_name_hash.
            bind-Needs 32 96 (read 32) _ (read-Needs 32) (λ args_hash.
              bind-Needs 32 64 (read 32) _ (read-Needs 32) (λ result_hash.
                bind-Needs 32 32 (read 32) _ (read-Needs 32) (λ prev_receipt_hash.
                  bind-Needs 32 0 (read 32) _ (read-Needs 32) (λ mac. pure-Needs _)))))))))

read_artifacts-Needs : (n : ℕ) → Needs (n * 32) (read_artifacts n)
unfolding read_artifacts
read_artifacts-Needs zero bs h = pure-Needs [] bs h
read_artifacts-Needs (suc n) bs h =
    let (a, mid, e, l) = read-Needs 32 bs (omega arith) in
    let (b, rest, q, m) = read_artifacts-Needs n mid (omega (arith, l)) in
    (a ∷ b, rest, rw (e, q) refl, omega (arith, l, m))

length-drop : (n : ℕ) (bs : List ℕ) → length (drop n bs) ≡ length bs - n
unfolding drop
length-drop zero bs = omega arith
length-drop (suc n) [] = omega arith
length-drop (suc n) (b ∷ bs) = omega (arith, length-drop n bs)

same_number : (a b : ℕ) → (a == b) ≡ true → a ≡ b
same_number a b e = ground arith

long_enough :
    (bytes : List ℕ)
    → ltb (length bytes) receipt_fixed_bytes ≡ false
    → receipt_fixed_bytes ≤ length bytes
long_enough bytes e = ground arith

-- The checks of the count stand before the reads of the artifacts.
with_count-safe : (r : ToolReceipt) (raw rest : List ℕ) → with_count r (ok (raw, rest)) ≢ panicked
with_count-safe r raw rest = elim (Bool-cases (ltb max_receipt_artifacts (from_le raw))) [
  | inl t ↦ rw t (λ e. ground arith)
  | inr t ↦ elim (Bool-cases (length rest == from_le raw * 32)) [
    | inr u ↦ rw (t, u) (λ e. ground arith)
    | inl u ↦
        let (a, left, e, l) =
          read_artifacts-Needs (from_le raw) rest
            (omega (arith, same_number (length rest) (from_le raw * 32) u)) in
        rw (t, u, e) (λ q. ground arith)
  ]
]

-- Decoding a receipt never reads past the end, whatever the bytes are.
pub from_bytes-safe : (bytes : List ℕ) → from_bytes bytes ≢ panicked
unfolding from_bytes
from_bytes-safe bytes = elim (Bool-cases (ltb (length bytes) receipt_fixed_bytes)) [
  | inl t ↦ rw t (λ e. ground arith)
  | inr t ↦ elim (Bool-cases (text_eq (take 4 bytes) receipt_magic)) [
    | inr u ↦ rw (t, u) (λ e. ground arith)
    | inl u ↦
        let enough = long_enough bytes t in
        let (r, mid, e, l) =
          read_fields-Needs (drop 4 bytes) (omega (arith, enough, length-drop 4 bytes)) in
        let (raw, rest, q, m) = read-Needs 4 mid (omega (arith, enough, l, length-drop 4 bytes)) in
        rw (t, u, e, q) (with_count-safe r raw rest)
  ]
]
