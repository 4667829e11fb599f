-- ===== src/Kernel/Approvals/Tests.antt =====
-- What the guards of the approval handlers tell.
use crust_core.Prelude.{◌≡◌, refl, true, is_some_of, Option, none, some, arith}
use crust_core.Types.Word.{ApprovalId, ToolCallId}
use crust_core.Types.Status.{ApprovalStatus}
use crust_core.Kernel.Event.{Actor, user, is_user}
use crust_core.Kernel.State.{op_matches}
use crust_core.Kernel.Approvals.{is_pending}

pub op_matches-some :
    (bound given : Option ToolCallId)
    → op_matches (record { tool_call_id = bound }) given ≡ true
    → (c : ToolCallId) × (bound ≡ some c) × (given ≡ some c)
op_matches-some (some b) (some g) h = (b, refl, ground arith)
op_matches-some (some b) none h = cc
op_matches-some none g h = cc

pub pending_of : (s : ApprovalStatus) → is_pending s ≡ true → s ≡ ApprovalStatus.pending
pending_of ApprovalStatus.pending h = refl
pending_of _ h = cc

pub user_of : (a : Actor) → is_user a ≡ true → a ≡ user
user_of user h = refl
user_of _ h = cc

pub awaited_of : (o : Option ApprovalId) (aid : ApprovalId) → is_some_of o aid ≡ true → o ≡ some aid
awaited_of none aid h = cc
awaited_of (some a) aid h = ground arith
