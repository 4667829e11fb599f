-- ===== src/Daemon/Integrated.antt =====
-- When a task becomes ready for integration.
use crust_core.Prelude.{
  ℕ, ◌≡◌, ◌↔◌, refl, inl, inr, leb, Bool-cases, Bool, true, false, List, [], ◌∷◌, arith,
}
use crust_core.Daemon.Task.{RiskTier, TaskShape}
use crust_core.Daemon.Review.{
  Role, reviewer, Verdict, IntegrationDecision, integrate, blocked_by, not_verified, missing_review,
  decide_integration, required_reviewers, missing_of, on_missing, on_required, orchestrate_review,
}
use crust_core.Daemon.TaskLoop.{ready_to_integrate, on_decision, outcome_of, finalize_task}
use crust_core.Daemon.Gated.{
  AllReported, NoVeto, Cleared, missing_of_iff, decide_from_sound, decide_from_complete,
  Reported-SawBlocking, panel,
}

ready_decision :
    (required : List Role) (d : IntegrationDecision)
    → on_decision required d ≡ ready_to_integrate
    → d ≡ integrate
ready_decision required integrate e = refl
ready_decision required (blocked_by role reason) e = ground arith
ready_decision required not_verified e = ground arith
ready_decision required missing_review e = ground arith

-- A panel that still misses a verdict does not make a task ready.
ready_missing :
    (required missing : List Role) (vs : List (Role × Verdict)) (waited most : ℕ)
    → outcome_of required (on_missing missing vs true waited most) ≡ ready_to_integrate
    → (missing ≡ []) × (decide_integration vs true ≡ integrate)
ready_missing required [] vs waited most e =
    (refl, ready_decision required (decide_integration vs true) e)
ready_missing required (r ∷ rs) vs waited most e = elim (Bool-cases (leb most waited)) [
  | inl t ↦ ground (arith, rw t at e)
  | inr t ↦ ground (arith, rw t at e)
]

ready_sound :
    (required : List Role) (vs : List (Role × Verdict)) (waited most : ℕ)
    → outcome_of required (on_required required vs true waited most) ≡ ready_to_integrate
    → Cleared required vs
unfolding decide_integration
ready_sound [] vs waited most e = inl refl
ready_sound (r ∷ rs) vs waited most e =
    let m = ready_missing (r ∷ rs) (missing_of (r ∷ rs) vs) vs waited most e in
    inr ((missing_of_iff (r ∷ rs) vs).0 m.0, (decide_from_sound vs false true m.1).0)

ready_complete :
    (rs : List Role) (vs : List (Role × Verdict)) (waited most : ℕ)
    → AllReported (reviewer ∷ rs) vs
    → NoVeto vs
    → outcome_of (reviewer ∷ rs) (on_required (reviewer ∷ rs) vs true waited most)
      ≡ ready_to_integrate
unfolding decide_integration
ready_complete rs vs waited most h n =
    rw
      (
        (missing_of_iff (reviewer ∷ rs) vs).1 h,
        decide_from_complete vs false n (inr (Reported-SawBlocking reviewer vs refl h.0)),
      )
      refl

cons_not_empty : (r : Role) (rs : List Role) → r ∷ rs ≡ [] → ⊥
cons_not_empty r rs e = ground arith

-- A task is ready for integration exactly when the verifier accepted it, and either its shape and its
-- risk require no reviewer, or all required reviewers gave a verdict and no reviewer, security auditor
-- or tester blocks it. No approval stands in for the verifier.
pub finalize_task_iff :
    (task : TaskShape) (risk : RiskTier) (verified : Bool) (verdicts : List (Role × Verdict))
    (waited_ms max_wait_ms : ℕ)
    → (finalize_task task risk verified verdicts waited_ms max_wait_ms ≡ ready_to_integrate)
      ↔ ((verified ≡ true) × Cleared (required_reviewers task risk) verdicts)
unfolding finalize_task orchestrate_review
finalize_task_iff task risk false vs waited most = (λ e. ground arith, λ h. ground (arith, h.0))
finalize_task_iff task risk true vs waited most = (
  λ e. (refl, ready_sound (required_reviewers task risk) vs waited most e),
  λ h. elim (panel task risk) [
    | inl p ↦ rw p refl
    | inr (rs, p) ↦ elim (rw p at h.1) [
      | inl q ↦ absurd (cons_not_empty reviewer rs q)
      | inr (a, n) ↦ rw p (ready_complete rs vs waited most a n)
    ]
  ],
)
