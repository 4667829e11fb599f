-- ===== src/Daemon/TaskLoop.antt =====
-- From a task to a plan, and from a run to an outcome (task_loop.rs).
use crust_core.Prelude.{ℕ, if◌then◌else◌, Bool, List}
use crust_core.Daemon.Task.{RiskTier, ExecutorKind, TaskShape}
use crust_core.Daemon.Router.{
  BlockedReason, RoutingDecision, single_executor, fan_out, requires_plan, blocked, decide_routing,
}
use crust_core.Daemon.Review.{
  Role, Verdict, IntegrationDecision, integrate, blocked_by, not_verified, missing_review,
  required_reviewers, AdvisoryOutcome, not_required, pending, timed_out, decided,
  orchestrate_review,
}

pub data ExecutionPlan : Type 0 where
  single : ExecutorKind → ExecutionPlan
  fanout : List ExecutorKind → ExecutionPlan
  advisory_only : ExecutionPlan
  refused : BlockedReason → ExecutionPlan

abbrev pub plan_of : RoutingDecision → ExecutionPlan
plan_of (single_executor k) = single k
plan_of (fan_out fleet) = fanout fleet
plan_of requires_plan = advisory_only
plan_of (blocked reason) = refused reason

-- `plan_task`
unfoldable pub plan_task : TaskShape → RiskTier → ℕ → List ExecutorKind → ExecutionPlan
plan_task task risk context_budget configured =
    plan_of (decide_routing task risk context_budget configured)

pub data TaskOutcome : Type 0 where
  not_run : BlockedReason → TaskOutcome
  advisory_requested failed : TaskOutcome
  awaiting_review review_timed_out : List Role → TaskOutcome
  review_blocked : Role → TaskOutcome
  ready_to_integrate : TaskOutcome

abbrev pub on_decision : List Role → IntegrationDecision → TaskOutcome
on_decision required integrate = ready_to_integrate
on_decision required (blocked_by role reason) = review_blocked role
on_decision required not_verified = awaiting_review required
on_decision required missing_review = awaiting_review required

abbrev pub outcome_of : List Role → AdvisoryOutcome → TaskOutcome
outcome_of required not_required = ready_to_integrate
outcome_of required (pending roles) = awaiting_review roles
outcome_of required (timed_out roles) = review_timed_out roles
outcome_of required (decided decision) = on_decision required decision

-- `finalize_task`
unfoldable pub finalize_task :
    TaskShape → RiskTier → Bool → List (Role × Verdict) → ℕ → ℕ → TaskOutcome
finalize_task task risk verified verdicts waited_ms max_wait_ms =
    let outcome =
      outcome_of (required_reviewers task risk)
        (orchestrate_review task risk verdicts verified waited_ms max_wait_ms) in
    if verified then outcome else failed
