-- ===== src/Kernel/Tasks/Edges.antt =====
-- The transition table follows the lifecycle diagram.
use crust_core.Prelude.{◌≡◌, refl, true, false}
use crust_core.Types.Status.{TaskStatus, is_terminal}
use crust_core.Kernel.Event.{EventKind}
use crust_core.Kernel.Tables.{TaskTransition, task_move, task_next}
use crust_core.Kernel.Step.{is_working, is_awaiting}
use crust_core.Kernel.Tasks.{◌⟶◌, IsConsistent, Moves, is_blocked}
use crust_core.Kernel.Tasks

pub from_awaiting : (s : TaskStatus) → is_awaiting s ≡ true → s ⟶ TaskStatus.running
from_awaiting TaskStatus.awaiting_approval h = Tasks.approve
from_awaiting _ h = cc

pub from_working : (s : TaskStatus) → is_working s ≡ true → s ⟶ TaskStatus.awaiting_approval
from_working TaskStatus.running h = Tasks.ask_running
from_working TaskStatus.integrating h = Tasks.ask_integrating
from_working _ h = cc

-- What the table may answer at a status: an edge, and never into `AwaitingApproval`.
abbrev pub Follows : TaskStatus → TaskTransition → Type 0
Follows s TaskTransition.stay = Unit
Follows s (TaskTransition.move to) = (s ⟶ to) × (is_awaiting to ≡ false)

task_move-Follows :
    (kind : EventKind) (s : TaskStatus) → is_terminal s ≡ false → Follows s (task_move kind s)
unfolding task_move
task_move-Follows EventKind.task_planned TaskStatus.created h = (Tasks.plan, refl)
task_move-Follows EventKind.job_queued TaskStatus.created h = (Tasks.queue_new, refl)
task_move-Follows EventKind.job_queued TaskStatus.planning h = (Tasks.queue_planned, refl)
task_move-Follows EventKind.job_queued TaskStatus.retrying h = (Tasks.queue_again, refl)
task_move-Follows EventKind.job_leased TaskStatus.queued h = (Tasks.start_queued, refl)
task_move-Follows EventKind.job_leased TaskStatus.planning h = (Tasks.start_planned, refl)
task_move-Follows EventKind.model_request_started TaskStatus.planning h =
    (Tasks.start_planned, refl)
task_move-Follows EventKind.model_request_started TaskStatus.queued h = (Tasks.start_queued, refl)
task_move-Follows EventKind.patch_verified TaskStatus.running h = (Tasks.verify, refl)
task_move-Follows EventKind.patch_rejected TaskStatus.running h = (Tasks.reject, refl)
task_move-Follows EventKind.patch_rejected TaskStatus.blocked h = (Tasks.reject_blocked, refl)
task_move-Follows EventKind.user_steer_received TaskStatus.blocked h = (Tasks.unblock, refl)
task_move-Follows EventKind.user_steer_received TaskStatus.awaiting_user_review h =
    (Tasks.revise, refl)
task_move-Follows EventKind.github_operation_completed TaskStatus.integrating h =
    (Tasks.publish, refl)
task_move-Follows EventKind.risk_detected s h = (Tasks.pause h, refl)
task_move-Follows EventKind.task_completed s h = (Tasks.complete h, refl)
task_move-Follows EventKind.task_failed s h = (Tasks.fail h, refl)
task_move-Follows EventKind.task_killed s h = (Tasks.kill h, refl)
task_move-Follows _ _ h = tt

pub task_next-Follows :
    (s : TaskStatus) (kind : EventKind) → is_terminal s ≡ false → Follows s (task_next s kind)
unfolding task_next
task_next-Follows s kind live = rw live (task_move-Follows kind s live)
