-- ===== src/Types/Status.antt =====
-- Task, job and approval statuses (crates/crustcore-types/src/status.rs).
use crust_core.Prelude.{Bool, true, false}

pub data TaskStatus : Type 0 where
  created queued planning running awaiting_approval blocked retrying : TaskStatus
  integrating awaiting_user_review completed failed killed archived : TaskStatus

pub data JobStatus : Type 0 where
  queued leased running heartbeat_missing retrying completed failed killed expired : JobStatus

pub data ApprovalStatus : Type 0 where
  pending approved denied expired : ApprovalStatus

pub data ApprovalResolution : Type 0 where
  approve deny : ApprovalResolution

pub data Reversibility : Type 0 where
  reversible reversible_with_cleanup irreversible destructive : Reversibility

-- `ApprovalStatus::is_resolved`
abbrev pub is_resolved : ApprovalStatus → Bool
is_resolved ApprovalStatus.approved = true
is_resolved ApprovalStatus.denied = true
is_resolved ApprovalStatus.expired = true
is_resolved _ = false

-- `TaskStatus::is_terminal`
abbrev pub is_terminal : TaskStatus → Bool
is_terminal TaskStatus.completed = true
is_terminal TaskStatus.failed = true
is_terminal TaskStatus.killed = true
is_terminal TaskStatus.archived = true
is_terminal _ = false

-- `JobStatus::is_terminal`
abbrev pub is_terminal_job : JobStatus → Bool
is_terminal_job JobStatus.completed = true
is_terminal_job JobStatus.failed = true
is_terminal_job JobStatus.killed = true
is_terminal_job JobStatus.expired = true
is_terminal_job _ = false

-- `Reversibility::requires_approval`
abbrev pub requires_approval : Reversibility → Bool
requires_approval irreversible = true
requires_approval destructive = true
requires_approval _ = false
