-- ===== src/Kernel/Tasks.antt =====
-- What a step may do to one task: the lifecycle diagram, and the shape of a task's record.
pub mod Arena
pub mod Edges
pub mod Effects
pub mod Handlers
pub mod Process
pub mod Lifecycle
pub mod Runs
use crust_core.Prelude.{◌≡◌, Bool, true, false, is_some}
use crust_core.Types.Status.{TaskStatus, is_terminal}
use crust_core.Types.Budget.{is_fully_bounded}
use crust_core.Kernel.State.{TaskEntry}
use crust_core.Kernel.Step.{is_awaiting}

-- The lifecycle diagram of a task, with no events.
infix 40 ◌⟶◌
pub data ◌⟶◌ : TaskStatus → TaskStatus → Type 0 where
  rest : {s : TaskStatus} → s ⟶ s
  plan : TaskStatus.created ⟶ TaskStatus.planning
  queue_new : TaskStatus.created ⟶ TaskStatus.queued
  queue_planned : TaskStatus.planning ⟶ TaskStatus.queued
  queue_again : TaskStatus.retrying ⟶ TaskStatus.queued
  start_queued : TaskStatus.queued ⟶ TaskStatus.running
  start_planned : TaskStatus.planning ⟶ TaskStatus.running
  verify : TaskStatus.running ⟶ TaskStatus.integrating
  reject : TaskStatus.running ⟶ TaskStatus.retrying
  reject_blocked : TaskStatus.blocked ⟶ TaskStatus.retrying
  unblock : TaskStatus.blocked ⟶ TaskStatus.running
  revise : TaskStatus.awaiting_user_review ⟶ TaskStatus.running
  publish : TaskStatus.integrating ⟶ TaskStatus.awaiting_user_review
  ask_running : TaskStatus.running ⟶ TaskStatus.awaiting_approval
  ask_integrating : TaskStatus.integrating ⟶ TaskStatus.awaiting_approval
  approve : TaskStatus.awaiting_approval ⟶ TaskStatus.running
  pause : {s : TaskStatus} → is_terminal s ≡ false → s ⟶ TaskStatus.blocked
  complete : {s : TaskStatus} → is_terminal s ≡ false → s ⟶ TaskStatus.completed
  fail : {s : TaskStatus} → is_terminal s ≡ false → s ⟶ TaskStatus.failed
  kill : {s : TaskStatus} → is_terminal s ≡ false → s ⟶ TaskStatus.killed

abbrev pub is_blocked : TaskStatus → Bool
is_blocked TaskStatus.blocked = true
is_blocked _ = false

-- A reason exactly when blocked, an awaited approval exactly when awaiting one, finite limits.
pub record IsConsistent (t : TaskEntry) : Type 0 where
  pub reason_when_blocked : is_some t.block_reason ≡ is_blocked t.status
  pub awaiting_when_asked : is_some t.awaiting ≡ is_awaiting t.status
  pub bounded : is_fully_bounded t.budget ≡ true

pub record Moves (t t' : TaskEntry) : Type 0 where
  pub same_id : t'.id ≡ t.id
  pub edge : t.status ⟶ t'.status
  pub consistent : IsConsistent t'
