-- ===== src/Receipts/Chain.antt =====
-- A receipt, the chain that mints and verifies receipts (lib.rs). A key is its bytes.
use crust_core.Prelude.{
  ℕ, ◌+◌, ◌==◌, ◌||◌, not, if◌then◌else◌, Bool, List, [], ◌∷◌, ◌++◌, length, take,
}
use crust_core.Prelude.Bytes.{to_le}
use crust_core.Prelude.Text.{text_eq}
use crust_core.Types.Word.{TaskId, JobId, ToolCallId, EventSeq}
use crust_core.Types.Hash.{sha256, hmac_sha256, ct_eq, zeros}

-- `GENESIS_RECEIPT_HASH`
abbrev pub genesis_receipt_hash : List ℕ
genesis_receipt_hash = zeros 32

-- `MAX_RECEIPT_ARTIFACTS`
abbrev pub max_receipt_artifacts : ℕ
max_receipt_artifacts = 256

pub record ToolReceipt : Type 0 where
  pub task_id : TaskId
  pub job_id : JobId
  pub tool_call_id : ToolCallId
  pub tool_name_hash : List ℕ
  pub args_hash : List ℕ
  pub result_hash : List ℕ
  pub artifact_hashes : List (List ℕ)
  pub event_seq : EventSeq
  pub prev_receipt_hash : List ℕ
  pub mac : List ℕ

pub record ReceiptParams : Type 0 where
  pub task_id : TaskId
  pub job_id : JobId
  pub tool_call_id : ToolCallId
  pub tool_name : List ℕ
  pub args : List ℕ
  pub result : List ℕ
  pub artifacts : List (List ℕ)
  pub event_seq : EventSeq

pub data ReceiptBreak : Type 0 where
  chain_mismatch bad_mac end_truncated : ReceiptBreak

pub data ReceiptStatus : Type 0 where
  intact : ℕ → ReceiptStatus
  broken : ℕ → ReceiptBreak → ReceiptStatus

unfoldable pub concat : List (List ℕ) → List ℕ
concat [] = []
concat (x ∷ xs) = x ++ concat xs

-- `receipt_body`
unfoldable pub receipt_body : ToolReceipt → List ℕ
receipt_body r =
    to_le 16 r.task_id
    ++ (to_le 16 r.job_id
        ++ (to_le 16 r.tool_call_id
            ++ (r.tool_name_hash
                ++ (r.args_hash
                    ++ (r.result_hash
                        ++ (to_le 4 (length r.artifact_hashes)
                            ++ (concat r.artifact_hashes
                                ++ (to_le 8 r.event_seq ++ r.prev_receipt_hash))))))))

-- `receipt_chain_hash`
unfoldable pub receipt_chain_hash : ToolReceipt → List ℕ
receipt_chain_hash r = sha256 (receipt_body r)

-- `ToolReceipt::result_matches`
unfoldable pub result_matches : List ℕ → ToolReceipt → Bool
result_matches result r = text_eq (sha256 result) r.result_hash

-- `ToolReceipt::args_matches`
unfoldable pub args_matches : List ℕ → ToolReceipt → Bool
args_matches args r = text_eq (sha256 args) r.args_hash

-- `ToolReceipt::links_to`
unfoldable pub links_to : ToolReceipt → ToolReceipt → Bool
links_to prev r = text_eq r.prev_receipt_hash (receipt_chain_hash prev)

pub record ReceiptChain : Type 0 where
  pub key : List ℕ
  pub head : List ℕ
  pub count : ℕ

-- `ReceiptChain::new`
abbrev pub new_chain : List ℕ → ReceiptChain
new_chain key = record { key = key; head = genesis_receipt_hash; count = 0 }

-- The receipt that `mint` builds, its MAC still empty.
abbrev pub unsigned : ReceiptParams → List ℕ → ToolReceipt
unsigned p head = record {
  task_id = p.task_id;
  job_id = p.job_id;
  tool_call_id = p.tool_call_id;
  tool_name_hash = sha256 p.tool_name;
  args_hash = sha256 p.args;
  result_hash = sha256 p.result;
  artifact_hashes = take max_receipt_artifacts p.artifacts;
  event_seq = p.event_seq;
  prev_receipt_hash = head;
  mac = zeros 32;
}

-- `ReceiptChain::mint`
unfoldable pub mint : ReceiptParams → ReceiptChain → ReceiptChain × ToolReceipt
mint p c =
    let receipt = unsigned p c.head in
    let body = receipt_body receipt in
    (
      record c { head = sha256 body; count = c.count + 1 },
      record receipt { mac = hmac_sha256 c.key body },
    )

-- The loop of `ReceiptChain::walk`; `total` is `receipts.len()`.
unfoldable pub walk_from : List ℕ → ℕ → List ℕ → ℕ → List ToolReceipt → ReceiptStatus × List ℕ
walk_from key total expected_prev index [] = (ReceiptStatus.intact total, expected_prev)
walk_from key total expected_prev index (r ∷ rs) =
    let body = receipt_body r in
    let more = walk_from key total (sha256 body) (index + 1) rs in
    if not (text_eq r.prev_receipt_hash expected_prev)
    then (ReceiptStatus.broken index ReceiptBreak.chain_mismatch, expected_prev)
    else if not (ct_eq (hmac_sha256 key body) r.mac)
    then (ReceiptStatus.broken index ReceiptBreak.bad_mac, expected_prev)
    else more

-- `ReceiptChain::walk`
unfoldable pub walk : ReceiptChain → List ToolReceipt → ReceiptStatus × List ℕ
walk c rs = walk_from c.key (length rs) genesis_receipt_hash 0 rs

-- `ReceiptChain::verify`
unfoldable pub verify : ReceiptChain → List ToolReceipt → ReceiptStatus
verify c rs = (walk c rs).0

abbrev pub complete : ReceiptChain → ReceiptStatus × List ℕ → ReceiptStatus
complete c (ReceiptStatus.broken index reason, final_head) = ReceiptStatus.broken index reason
complete c (ReceiptStatus.intact count, final_head) =
    if not (count == c.count) || not (text_eq final_head c.head)
    then ReceiptStatus.broken count ReceiptBreak.end_truncated
    else ReceiptStatus.intact count

-- `ReceiptChain::verify_complete`
unfoldable pub verify_complete : ReceiptChain → List ToolReceipt → ReceiptStatus
verify_complete c rs = complete c (walk c rs)
