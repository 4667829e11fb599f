-- ===== src/Receipts/Record.antt =====
-- A receipt as the payload of a frame: `ToolReceipt::to_bytes` and `from_bytes` (lib.rs). The offset
-- is represented by the bytes from it on; reading past the end, where the source panics, is
-- `panicked`.
use crust_core.Prelude.{
  ℕ, zero, suc, ◌+◌, ◌*◌, ◌==◌, min, ltb, not, if◌then◌else◌, Option, none, some, List, [], ◌∷◌,
  ◌++◌, length, take,
}
use crust_core.Prelude.Bytes.{to_le, from_le, split}
use crust_core.Prelude.Text.{text_eq}
use crust_core.Types.Hash.{drop}
use crust_core.Receipts.Chain.{ToolReceipt, max_receipt_artifacts, concat}

pub data ReceiptDecodeError : Type 0 where
  truncated bad_magic too_many_artifacts invalid_length : ReceiptDecodeError

pub data Outcome {ℓ} (A : Type ℓ) : Type ℓ where
  ok : A → Outcome A
  err : ReceiptDecodeError → Outcome A
  panicked : Outcome A

-- `RECEIPT_MAGIC`, the text CCR1
abbrev pub receipt_magic : List ℕ
receipt_magic = 67 ∷ 67 ∷ 82 ∷ 49 ∷ []

-- `RECEIPT_FIXED_BYTES`
abbrev pub receipt_fixed_bytes : ℕ
receipt_fixed_bytes = 4 + 16 * 3 + 8 + 32 * 5 + 4

-- `ToolReceipt::to_bytes`
unfoldable pub to_bytes : ToolReceipt → List ℕ
to_bytes r =
    let artifact_count = min (length r.artifact_hashes) max_receipt_artifacts in
    receipt_magic
    ++ (to_le 16 r.task_id
        ++ (to_le 16 r.job_id
            ++ (to_le 16 r.tool_call_id
                ++ (to_le 8 r.event_seq
                    ++ (r.tool_name_hash
                        ++ (r.args_hash
                            ++ (r.result_hash
                                ++ (r.prev_receipt_hash
                                    ++ (r.mac
                                        ++ (to_le 4 artifact_count
                                            ++ concat
                                                (take artifact_count r.artifact_hashes)))))))))))

abbrev pub Reader : Type 0 → Type 0
Reader A = List ℕ → Outcome (A × List ℕ)

abbrev pub and_then : {A B : Type 0} → Outcome (A × List ℕ) → (A → Reader B) → Outcome (B × List ℕ)
and_then (ok (a, rest)) f = f a rest
and_then (err e) f = err e
and_then panicked f = panicked

infixl 5 ◌>>=◌
abbrev pub ◌>>=◌ : {A B : Type 0} → Reader A → (A → Reader B) → Reader B
m >>= f = λ bs. and_then (m bs) f

abbrev pub pure : {A : Type 0} → A → Reader A
pure a = λ bs. ok (a, bs)

abbrev pub or_panic : Option (List ℕ × List ℕ) → Outcome (List ℕ × List ℕ)
or_panic none = panicked
or_panic (some x) = ok x

-- `read_hash`, and the reads of `read_u128` and `read_u64`: a slice of `n` bytes
abbrev pub read : ℕ → Reader (List ℕ)
read n = λ bs. or_panic (split n bs)

-- The fields up to the MAC, in a receipt without artifacts.
unfoldable pub read_fields : Reader ToolReceipt
read_fields = do
  task_id ← read 16
  job_id ← read 16
  tool_call_id ← read 16
  event_seq ← read 8
  tool_name_hash ← read 32
  args_hash ← read 32
  result_hash ← read 32
  prev_receipt_hash ← read 32
  mac ← read 32
  pure record {
    task_id = from_le task_id;
    job_id = from_le job_id;
    tool_call_id = from_le tool_call_id;
    tool_name_hash = tool_name_hash;
    args_hash = args_hash;
    result_hash = result_hash;
    artifact_hashes = [];
    event_seq = from_le event_seq;
    prev_receipt_hash = prev_receipt_hash;
    mac = mac;
  }

-- The loop that reads the artifacts.
unfoldable pub read_artifacts : ℕ → Reader (List (List ℕ))
read_artifacts zero = pure []
read_artifacts (suc n) = do hash ← read 32; more ← read_artifacts n; pure (hash ∷ more)

abbrev pub with_artifacts : ToolReceipt → Outcome (List (List ℕ) × List ℕ) → Outcome ToolReceipt
with_artifacts r (ok (hashes, rest)) = ok (record r { artifact_hashes = hashes })
with_artifacts r (err e) = err e
with_artifacts r panicked = panicked

-- The end of `from_bytes`, from the artifact count on. `expected` is the offset and 32 bytes for
-- each of at most 256 artifacts, which does not saturate.
abbrev pub with_count : ToolReceipt → Outcome (List ℕ × List ℕ) → Outcome ToolReceipt
with_count r (ok (count_raw, rest)) =
    let artifact_count = from_le count_raw in
    let artifacts = read_artifacts artifact_count rest in
    if ltb max_receipt_artifacts artifact_count
    then err ReceiptDecodeError.too_many_artifacts
    else if not (length rest == artifact_count * 32)
    then err ReceiptDecodeError.invalid_length
    else with_artifacts r artifacts
with_count r (err e) = err e
with_count r panicked = panicked

abbrev pub with_fields : Outcome (ToolReceipt × List ℕ) → Outcome ToolReceipt
with_fields (ok (r, rest)) = with_count r (read 4 rest)
with_fields (err e) = err e
with_fields panicked = panicked

-- `ToolReceipt::from_bytes`
unfoldable pub from_bytes : List ℕ → Outcome ToolReceipt
from_bytes bytes =
    let fields = with_fields (read_fields (drop 4 bytes)) in
    if ltb (length bytes) receipt_fixed_bytes
    then err ReceiptDecodeError.truncated
    else if not (text_eq (take 4 bytes) receipt_magic)
    then err ReceiptDecodeError.bad_magic
    else fields
