-- ===== src/Daemon/Review.antt =====
-- The gate before integration (the roles and `decide_integration` of supervisor.rs, and reviewer.rs).
-- Text is a list of bytes.
use crust_core.Prelude.{ℕ, ◌==◌, ◌||◌, not, leb, if◌then◌else◌, Bool, true, false, List, [], ◌∷◌}
use crust_core.Daemon.Task.{
  RiskTier, high, at_least, TaskShape, dependency_change, workflow_change, security_sensitive,
}

pub data Role : Type 0 where
  supervisor planner researcher repo_analyst architect implementer tester reviewer : Role
  security_auditor dependency_analyst release_manager documentation_writer : Role
  external_codex external_claude_code external_command : Role

-- The derived equality of `Role`, by the place of the constructor.
unfoldable pub role_place : Role → ℕ
role_place supervisor = 0
role_place planner = 1
role_place researcher = 2
role_place repo_analyst = 3
role_place architect = 4
role_place implementer = 5
role_place tester = 6
role_place reviewer = 7
role_place security_auditor = 8
role_place dependency_analyst = 9
role_place release_manager = 10
role_place documentation_writer = 11
role_place external_codex = 12
role_place external_claude_code = 13
role_place external_command = 14

abbrev pub role_eq : Role → Role → Bool
role_eq a b = role_place a == role_place b

-- `Role::can_block_integration`
abbrev pub can_block_integration : Role → Bool
can_block_integration reviewer = true
can_block_integration security_auditor = true
can_block_integration tester = true
can_block_integration _ = false

pub data Verdict : Type 0 where
  approve : Verdict
  block : List ℕ → Verdict

pub data IntegrationDecision : Type 0 where
  integrate : IntegrationDecision
  blocked_by : Role → List ℕ → IntegrationDecision
  not_verified missing_review : IntegrationDecision

-- The end of `decide_integration`, after the loop.
abbrev pub without_veto : Bool → Bool → IntegrationDecision
without_veto false verified = missing_review
without_veto true false = not_verified
without_veto true true = integrate

abbrev pub on_verdict : Role → Verdict → IntegrationDecision → IntegrationDecision
on_verdict role approve more = more
on_verdict role (block reason) more = blocked_by role reason

-- The loop of `decide_integration`.
unfoldable pub decide_from : List (Role × Verdict) → Bool → Bool → IntegrationDecision
decide_from [] saw_blocking_review verified = without_veto saw_blocking_review verified
decide_from ((role, verdict) ∷ rest) saw_blocking_review verified =
    let seen = decide_from rest true verified in
    let skipped = decide_from rest saw_blocking_review verified in
    if can_block_integration role then on_verdict role verdict seen else skipped

-- `decide_integration`
unfoldable pub decide_integration : List (Role × Verdict) → Bool → IntegrationDecision
decide_integration verdicts verified = decide_from verdicts false verified

-- `required_reviewers`
unfoldable pub required_reviewers : TaskShape → RiskTier → List Role
required_reviewers security_sensitive risk = reviewer ∷ security_auditor ∷ []
required_reviewers workflow_change risk = reviewer ∷ security_auditor ∷ []
required_reviewers dependency_change risk = reviewer ∷ security_auditor ∷ []
required_reviewers _ risk = if at_least risk high then reviewer ∷ [] else []

abbrev is_empty : List Role → Bool
is_empty [] = true
is_empty (r ∷ rs) = false

-- `advisory_required`
abbrev pub advisory_required : TaskShape → RiskTier → Bool
advisory_required task risk = not (is_empty (required_reviewers task risk))

pub data AdvisoryOutcome : Type 0 where
  not_required : AdvisoryOutcome
  pending timed_out : List Role → AdvisoryOutcome
  decided : IntegrationDecision → AdvisoryOutcome

unfoldable pub has_reported : Role → List (Role × Verdict) → Bool
has_reported r [] = false
has_reported r ((role, verdict) ∷ rest) = role_eq role r || has_reported r rest

unfoldable pub missing_of : List Role → List (Role × Verdict) → List Role
missing_of [] verdicts = []
missing_of (r ∷ rs) verdicts =
    let more = missing_of rs verdicts in if has_reported r verdicts then more else r ∷ more

abbrev pub on_missing : List Role → List (Role × Verdict) → Bool → ℕ → ℕ → AdvisoryOutcome
on_missing [] verdicts verified waited_ms max_wait_ms =
    decided (decide_integration verdicts verified)
on_missing (r ∷ rs) verdicts verified waited_ms max_wait_ms =
    if leb max_wait_ms waited_ms then timed_out (r ∷ rs) else pending (r ∷ rs)

abbrev pub on_required : List Role → List (Role × Verdict) → Bool → ℕ → ℕ → AdvisoryOutcome
on_required [] verdicts verified waited_ms max_wait_ms = not_required
on_required (r ∷ rs) verdicts verified waited_ms max_wait_ms =
    on_missing (missing_of (r ∷ rs) verdicts) verdicts verified waited_ms max_wait_ms

-- `orchestrate_review`
unfoldable pub orchestrate_review :
    TaskShape → RiskTier → List (Role × Verdict) → Bool → ℕ → ℕ → AdvisoryOutcome
orchestrate_review task risk verdicts verified waited_ms max_wait_ms =
    on_required (required_reviewers task risk) verdicts verified waited_ms max_wait_ms
