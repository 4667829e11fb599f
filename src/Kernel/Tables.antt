-- ===== src/Kernel/Tables.antt =====
-- The pure transition tables `task_next` and `job_next` (crates/crustcore-kernel/src/state.rs).
-- The kinds that the source lists as `Stay` fall to the last clause.
use crust_core.Prelude.{if◌then◌else◌}
use crust_core.Types.Status.{TaskStatus, JobStatus, is_terminal, is_terminal_job}
use crust_core.Kernel.Event.{
  EventKind, task_planned, job_queued, job_leased, model_request_started, tool_call_started,
  tool_call_completed, sandbox_started, command_started, command_output_captured, command_completed,
  patch_verified, patch_rejected, user_steer_received, github_operation_completed, risk_detected,
  task_completed, task_failed, task_killed,
}

pub data TaskTransition : Type 0 where
  stay : TaskTransition
  move : TaskStatus → TaskTransition

pub data JobTransition : Type 0 where
  stay : JobTransition
  move : JobStatus → JobTransition

-- The `match kind` of `task_next`.
unfoldable pub task_move : EventKind → TaskStatus → TaskTransition
task_move task_planned TaskStatus.created = TaskTransition.move TaskStatus.planning
task_move job_queued TaskStatus.created = TaskTransition.move TaskStatus.queued
task_move job_queued TaskStatus.planning = TaskTransition.move TaskStatus.queued
task_move job_queued TaskStatus.retrying = TaskTransition.move TaskStatus.queued
task_move job_leased TaskStatus.queued = TaskTransition.move TaskStatus.running
task_move job_leased TaskStatus.planning = TaskTransition.move TaskStatus.running
task_move model_request_started TaskStatus.planning = TaskTransition.move TaskStatus.running
task_move model_request_started TaskStatus.queued = TaskTransition.move TaskStatus.running
task_move patch_verified TaskStatus.running = TaskTransition.move TaskStatus.integrating
task_move patch_rejected TaskStatus.running = TaskTransition.move TaskStatus.retrying
task_move patch_rejected TaskStatus.blocked = TaskTransition.move TaskStatus.retrying
task_move user_steer_received TaskStatus.blocked = TaskTransition.move TaskStatus.running
task_move user_steer_received TaskStatus.awaiting_user_review =
    TaskTransition.move TaskStatus.running
task_move github_operation_completed TaskStatus.integrating =
    TaskTransition.move TaskStatus.awaiting_user_review
task_move risk_detected _ = TaskTransition.move TaskStatus.blocked
task_move task_completed _ = TaskTransition.move TaskStatus.completed
task_move task_failed _ = TaskTransition.move TaskStatus.failed
task_move task_killed _ = TaskTransition.move TaskStatus.killed
task_move _ _ = TaskTransition.stay

unfoldable pub task_next : TaskStatus → EventKind → TaskTransition
unfolding task_move
task_next status kind = if is_terminal status then TaskTransition.stay else task_move kind status

-- The `match kind` of `job_next`.
unfoldable pub job_move : EventKind → JobStatus → JobTransition
job_move job_queued JobStatus.retrying = JobTransition.move JobStatus.queued
job_move job_leased JobStatus.queued = JobTransition.move JobStatus.leased
job_move model_request_started JobStatus.leased = JobTransition.move JobStatus.running
job_move model_request_started JobStatus.heartbeat_missing = JobTransition.move JobStatus.running
job_move tool_call_started JobStatus.leased = JobTransition.move JobStatus.running
job_move tool_call_started JobStatus.heartbeat_missing = JobTransition.move JobStatus.running
job_move command_started JobStatus.leased = JobTransition.move JobStatus.running
job_move command_started JobStatus.heartbeat_missing = JobTransition.move JobStatus.running
job_move sandbox_started JobStatus.leased = JobTransition.move JobStatus.running
job_move sandbox_started JobStatus.heartbeat_missing = JobTransition.move JobStatus.running
job_move command_output_captured JobStatus.heartbeat_missing = JobTransition.move JobStatus.running
job_move command_completed JobStatus.running = JobTransition.move JobStatus.completed
job_move command_completed JobStatus.leased = JobTransition.move JobStatus.completed
job_move tool_call_completed JobStatus.running = JobTransition.move JobStatus.completed
job_move tool_call_completed JobStatus.leased = JobTransition.move JobStatus.completed
job_move task_killed _ = JobTransition.move JobStatus.killed
job_move task_failed _ = JobTransition.move JobStatus.failed
job_move _ _ = JobTransition.stay

unfoldable pub job_next : JobStatus → EventKind → JobTransition
unfolding job_move
job_next status kind = if is_terminal_job status then JobTransition.stay else job_move kind status
