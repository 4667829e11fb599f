-- ===== src/Receipts/RoundTrip.antt =====
-- A receipt survives being written and read; reading never goes past the end.
use crust_core.Prelude.{
  ℕ, ◌+◌, ◌*◌, ◌^◌, ◌≤◌, ◌<◌, ◌==◌, min, ltb, ◌≡◌, refl, true, false, List, [], ◌∷◌, ◌++◌, length,
  length-append, take-length, take-length-append, arith,
}
use crust_core.Prelude.Bytes.{to_le, length-to_le, from_le-to_le, split-append_of}
use crust_core.Prelude.Text.{text_eq_refl}
use crust_core.Types.Hash.{drop}
use crust_core.Receipts.Chain.{ToolReceipt, max_receipt_artifacts, concat}
use crust_core.Receipts.Record.{
  ok, receipt_magic, receipt_fixed_bytes, to_bytes, read, read_fields, read_artifacts, with_count,
  from_bytes,
}

-- Hashes of 32 bytes
abbrev pub AreHashes : List (List ℕ) → Type 0
AreHashes [] = Unit {0}
AreHashes (h ∷ hs) = (length h ≡ 32) × AreHashes hs

-- The fields have the sizes of their types, and the artifacts are at most 256.
pub record FitsReceipt (r : ToolReceipt) : Type 0 where
  pub task_id : r.task_id < 256 ^ 16
  pub job_id : r.job_id < 256 ^ 16
  pub tool_call_id : r.tool_call_id < 256 ^ 16
  pub event_seq : r.event_seq < 256 ^ 8
  pub tool_name_hash : length r.tool_name_hash ≡ 32
  pub args_hash : length r.args_hash ≡ 32
  pub result_hash : length r.result_hash ≡ 32
  pub prev_receipt_hash : length r.prev_receipt_hash ≡ 32
  pub mac : length r.mac ≡ 32
  pub artifacts : length r.artifact_hashes ≤ 256
  pub hashes : AreHashes r.artifact_hashes

length-concat : (hs : List (List ℕ)) → AreHashes hs → length (concat hs) ≡ length hs * 32
unfolding concat
length-concat [] h = refl
length-concat (x ∷ hs) h = omega (arith, h.0, length-append x (concat hs), length-concat hs h.1)

read_artifacts-concat :
    (hs : List (List ℕ)) → AreHashes hs → read_artifacts (length hs) (concat hs) ≡ ok (hs, [])
unfolding read_artifacts concat
read_artifacts-concat [] h = refl
read_artifacts-concat (x ∷ hs) h =
    rw (split-append_of 32 x (concat hs) h.0, read_artifacts-concat hs h.1) refl

abbrev after_fields : ToolReceipt → List ℕ
after_fields r = to_le 4 (length r.artifact_hashes) ++ concat r.artifact_hashes

abbrev field_bytes : ToolReceipt → List ℕ → List ℕ
field_bytes r rest =
    to_le 16 r.task_id
    ++ (to_le 16 r.job_id
        ++ (to_le 16 r.tool_call_id
            ++ (to_le 8 r.event_seq
                ++ (r.tool_name_hash
                    ++ (r.args_hash
                        ++ (r.result_hash ++ (r.prev_receipt_hash ++ (r.mac ++ rest))))))))

read_fields-field_bytes :
    (r : ToolReceipt) (rest : List ℕ)
    → FitsReceipt r
    → read_fields (field_bytes r rest) ≡ ok (record r { artifact_hashes = [] }, rest)
unfolding read_fields
read_fields-field_bytes r rest h =
    let t8 = r.mac ++ rest in
    let t7 = r.prev_receipt_hash ++ t8 in
    let t6 = r.result_hash ++ t7 in
    let t5 = r.args_hash ++ t6 in
    let t4 = r.tool_name_hash ++ t5 in
    let t3 = to_le 8 r.event_seq ++ t4 in
    let t2 = to_le 16 r.tool_call_id ++ t3 in
    let t1 = to_le 16 r.job_id ++ t2 in
    rw
      (
        split-append_of 16 (to_le 16 r.task_id) t1 (length-to_le 16 r.task_id),
        split-append_of 16 (to_le 16 r.job_id) t2 (length-to_le 16 r.job_id),
        split-append_of 16 (to_le 16 r.tool_call_id) t3 (length-to_le 16 r.tool_call_id),
        split-append_of 8 (to_le 8 r.event_seq) t4 (length-to_le 8 r.event_seq),
        split-append_of 32 r.tool_name_hash t5 h.tool_name_hash,
        split-append_of 32 r.args_hash t6 h.args_hash,
        split-append_of 32 r.result_hash t7 h.result_hash,
        split-append_of 32 r.prev_receipt_hash t8 h.prev_receipt_hash,
        split-append_of 32 r.mac rest h.mac,
        from_le-to_le 16 r.task_id h.task_id,
        from_le-to_le 16 r.job_id h.job_id,
        from_le-to_le 16 r.tool_call_id h.tool_call_id,
        from_le-to_le 8 r.event_seq h.event_seq,
      )
      refl

all_artifacts :
    (r : ToolReceipt)
    → FitsReceipt r
    → min (length r.artifact_hashes) max_receipt_artifacts ≡ length r.artifact_hashes
all_artifacts r h = omega (arith, h.artifacts)

to_bytes_eq :
    (r : ToolReceipt) → FitsReceipt r → to_bytes r ≡ receipt_magic ++ field_bytes r (after_fields r)
unfolding to_bytes
to_bytes_eq r h = rw (all_artifacts r h, take-length r.artifact_hashes) refl

length-field_bytes :
    (r : ToolReceipt) (rest : List ℕ)
    → FitsReceipt r
    → length (field_bytes r rest) ≡ 216 + length rest
length-field_bytes r rest h =
    let t8 = r.mac ++ rest in
    let t7 = r.prev_receipt_hash ++ t8 in
    let t6 = r.result_hash ++ t7 in
    let t5 = r.args_hash ++ t6 in
    let t4 = r.tool_name_hash ++ t5 in
    let t3 = to_le 8 r.event_seq ++ t4 in
    let t2 = to_le 16 r.tool_call_id ++ t3 in
    let t1 = to_le 16 r.job_id ++ t2 in
    omega (
      arith,
      h,
      length-append (to_le 16 r.task_id) t1,
      length-append (to_le 16 r.job_id) t2,
      length-append (to_le 16 r.tool_call_id) t3,
      length-append (to_le 8 r.event_seq) t4,
      length-append r.tool_name_hash t5,
      length-append r.args_hash t6,
      length-append r.result_hash t7,
      length-append r.prev_receipt_hash t8,
      length-append r.mac rest,
      length-to_le 16 r.task_id,
      length-to_le 16 r.job_id,
      length-to_le 16 r.tool_call_id,
      length-to_le 8 r.event_seq,
    )

not_less : (a b : ℕ) → b ≤ a → ltb a b ≡ false
not_less a b h = ground arith

same_self : (n : ℕ) → (n == n) ≡ true
same_self n = ground arith

with_count-after :
    (r : ToolReceipt)
    → FitsReceipt r
    → with_count (record r { artifact_hashes = [] }) (read 4 (after_fields r)) ≡ ok r
with_count-after r h =
    let n = length r.artifact_hashes in
    rw
      (
        split-append_of 4 (to_le 4 n) (concat r.artifact_hashes) (length-to_le 4 n),
        from_le-to_le 4 n (omega (arith, h.artifacts)),
        length-concat r.artifact_hashes h.hashes,
        read_artifacts-concat r.artifact_hashes h.hashes,
        not_less 256 n h.artifacts,
        same_self (n * 32),
      )
      refl

long_enough :
    (r : ToolReceipt)
    → FitsReceipt r
    → receipt_fixed_bytes ≤ length (receipt_magic ++ field_bytes r (after_fields r))
long_enough r h = omega (
  arith,
  length-field_bytes r (after_fields r) h,
  length-append (to_le 4 (length r.artifact_hashes)) (concat r.artifact_hashes),
  length-to_le 4 (length r.artifact_hashes),
)

-- A receipt whose fields have the sizes of their types, with at most 256 artifacts, is read back
-- from its bytes.
pub from_bytes-to_bytes : (r : ToolReceipt) → FitsReceipt r → from_bytes (to_bytes r) ≡ ok r
unfolding from_bytes drop
from_bytes-to_bytes r h =
    let fields = field_bytes r (after_fields r) in
    rw
      (
        to_bytes_eq r h,
        not_less (length (receipt_magic ++ fields)) receipt_fixed_bytes (long_enough r h),
        take-length-append receipt_magic fields,
        text_eq_refl receipt_magic,
        read_fields-field_bytes r (after_fields r) h,
        with_count-after r h,
      )
      refl
