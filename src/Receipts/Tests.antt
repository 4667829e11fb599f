-- ===== src/Receipts/Tests.antt =====
-- The theorems on receipts at concrete receipts.
use crust_core.Prelude.{
  ℕ, ◌≡◌, ◌≢◌, ◌↔◌, refl, none, true, false, some, List, [], ◌∷◌, length, arith,
}
use crust_core.Types.Hash.{hmac_sha256, zeros, ct_eq}
use crust_core.Types.Hash.Laws.{ct_eq_iff}
use crust_core.Receipts.Chain.{
  genesis_receipt_hash, ToolReceipt, ReceiptParams, ReceiptBreak, ReceiptStatus, receipt_body,
  new_chain, verify, verify_complete,
}
use crust_core.Receipts.Minted.{
  mint_all, hmac_sha256-IsDigest, verify_complete-mint_all, verify_complete-dropped,
}
use crust_core.Receipts.Verified.{AreReceipts, HaveMacs, verify-AreReceipts}
use crust_core.Receipts.Join.{FrameRef, JoinStatus, verify_against_log}
use crust_core.Receipts.Joined.{AreAnchored, verify_against_log-AreAnchored}
use crust_core.Receipts.Record.{ok, panicked, to_bytes, from_bytes}
use crust_core.Receipts.RoundTrip.{FitsReceipt, from_bytes-to_bytes}
use crust_core.Receipts.Safe.{from_bytes-safe}

abbrev key : List ℕ
key = 7 ∷ 7 ∷ 7 ∷ []

abbrev call : ℕ → ReceiptParams
call seq = record {
  task_id = 1;
  job_id = 10;
  tool_call_id = seq;
  tool_name = 114 ∷ [];
  args = 99 ∷ 116 ∷ [];
  result = 111 ∷ 107 ∷ [];
  artifacts = zeros 32 ∷ [];
  event_seq = seq;
}

abbrev pub receipt : ToolReceipt
receipt = record {
  task_id = 1;
  job_id = 10;
  tool_call_id = 3;
  tool_name_hash = zeros 32;
  args_hash = zeros 32;
  result_hash = zeros 32;
  artifact_hashes = zeros 32 ∷ [];
  event_seq = 2;
  prev_receipt_hash = zeros 32;
  mac = zeros 32;
}

receipt-FitsReceipt : FitsReceipt receipt
unfolding zeros
receipt-FitsReceipt = record {
  task_id = omega arith;
  job_id = omega arith;
  tool_call_id = omega arith;
  event_seq = omega arith;
  tool_name_hash = refl;
  args_hash = refl;
  result_hash = refl;
  prev_receipt_hash = refl;
  mac = refl;
  artifacts = omega arith;
  hashes = (refl, tt);
}

ct_eq_iff_example :
    (ct_eq (1 ∷ 2 ∷ []) (1 ∷ 3 ∷ []) ≡ true) ↔ (◌≡◌ {A = List ℕ} (1 ∷ 2 ∷ []) (1 ∷ 3 ∷ []))
ct_eq_iff_example =
    ct_eq_iff (1 ∷ 2 ∷ []) (1 ∷ 3 ∷ []) refl (omega arith, (omega arith, tt))
      (omega arith, (omega arith, tt))

verify_complete-mint_all_example :
    (verify
        (mint_all (call 1 ∷ call 2 ∷ []) (new_chain key)).0
        (mint_all (call 1 ∷ call 2 ∷ []) (new_chain key)).1
      ≡ ReceiptStatus.intact 2)
    × (verify_complete
          (mint_all (call 1 ∷ call 2 ∷ []) (new_chain key)).0
          (mint_all (call 1 ∷ call 2 ∷ []) (new_chain key)).1
        ≡ ReceiptStatus.intact 2)
verify_complete-mint_all_example = verify_complete-mint_all (call 1 ∷ call 2 ∷ []) key

verify_complete-dropped_example :
    (verify
        (mint_all (call 1 ∷ call 2 ∷ []) (new_chain key)).0
        (mint_all (call 1 ∷ []) (new_chain key)).1
      ≡ ReceiptStatus.intact 1)
    × (verify_complete
          (mint_all (call 1 ∷ call 2 ∷ []) (new_chain key)).0
          (mint_all (call 1 ∷ []) (new_chain key)).1
        ≡ ReceiptStatus.broken 1 ReceiptBreak.end_truncated)
verify_complete-dropped_example = verify_complete-dropped (call 1 ∷ []) (call 2) [] key

abbrev signed : ToolReceipt
signed = record receipt { mac = hmac_sha256 key (receipt_body receipt) }

signed-HaveMacs : HaveMacs (signed ∷ [])
signed-HaveMacs = let d = hmac_sha256-IsDigest key (receipt_body receipt) in (d.0, d.1, tt)

verify-AreReceipts_example :
    (verify (new_chain key) (signed ∷ []) ≡ ReceiptStatus.intact 1)
    ↔ (AreReceipts key genesis_receipt_hash (signed ∷ []) × (length (signed ∷ []) ≡ 1))
verify-AreReceipts_example = verify-AreReceipts (new_chain key) (signed ∷ []) 1 signed-HaveMacs

abbrev refs : List FrameRef
refs =
    record { seq = 1; tool_completed = false; task_id = some 1; job_id = none }
    ∷ record { seq = 2; tool_completed = true; task_id = some 1; job_id = some 10 }
    ∷ []

verify_against_log-AreAnchored_example :
    (verify_against_log (receipt ∷ []) refs ≡ JoinStatus.joined 1)
    ↔ (AreAnchored refs (receipt ∷ []) × (length (receipt ∷ []) ≡ 1))
verify_against_log-AreAnchored_example = verify_against_log-AreAnchored (receipt ∷ []) refs 1

from_bytes-to_bytes_example : from_bytes (to_bytes receipt) ≡ ok receipt
from_bytes-to_bytes_example = from_bytes-to_bytes receipt receipt-FitsReceipt

from_bytes-safe_example : from_bytes (67 ∷ 67 ∷ 82 ∷ 49 ∷ []) ≢ panicked
from_bytes-safe_example = from_bytes-safe (67 ∷ 67 ∷ 82 ∷ 49 ∷ [])
