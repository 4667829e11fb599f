-- ===== src/Session/Resume.antt =====
-- Resuming a run (resume.rs): only after the log and its receipts verify.
use crust_core.Prelude.{ℕ, Option, none, some, List}
use crust_core.Eventlog.Parser.{BreakReason}
use crust_core.Eventlog.Log.{ChainStatus, EventLog, verify, verify_to_head}
use crust_core.Receipts.Chain.{ToolReceipt}
use crust_core.Receipts.Join.{JoinBreak, JoinStatus, verify_against_log}
use crust_core.Session.View.{SessionId, SessionView, new_view, frame_refs}

pub data ResumeRefused : Type 0 where
  log_broken : ℕ → BreakReason → ResumeRefused
  head_mismatch : ResumeRefused
  receipt_join_broken : ℕ → JoinBreak → ResumeRefused

-- `Result<SessionView, ResumeRefused>`; `unfinished` is a walk whose fuel has run out.
pub data Resumption : Type 0 where
  resumed : SessionView → Resumption
  refused : ResumeRefused → Resumption
  unfinished : Resumption

-- `log_break`
abbrev pub log_break : ℕ → BreakReason → ResumeRefused
log_break frame_index BreakReason.head_mismatch = head_mismatch
log_break frame_index reason = log_broken frame_index reason

abbrev pub refusal : JoinStatus → Option ResumeRefused
refusal (JoinStatus.joined count) = none
refusal (JoinStatus.broken index reason) = some (receipt_join_broken index reason)

-- `check_join`
unfoldable pub check_join : EventLog → List ToolReceipt → Option ResumeRefused
check_join log receipts = refusal (verify_against_log receipts (frame_refs log))

abbrev pub on_status : EventLog → SessionId → ChainStatus → Resumption
on_status log session (ChainStatus.intact n) = resumed (new_view log session)
on_status log session (ChainStatus.broken frame_index reason) =
    refused (log_break frame_index reason)
on_status log session ChainStatus.unfinished = unfinished

abbrev pub after_join : Option ResumeRefused → Resumption → Resumption
after_join (some e) more = refused e
after_join none more = more

-- `resume`
unfoldable pub resume : EventLog → SessionId → List ToolReceipt → Resumption
resume log session receipts =
    after_join (check_join log receipts) (on_status log session (verify log))

-- `resume_to_head`
unfoldable pub resume_to_head : EventLog → SessionId → List ToolReceipt → List ℕ → Resumption
resume_to_head log session receipts expected_head =
    after_join (check_join log receipts) (on_status log session (verify_to_head expected_head log))
