-- ===== src/Daemon/Gated.antt =====
-- When a result may be integrated.
use crust_core.Prelude.{
  ℕ, zero, suc, ◌≡◌, ◌↔◌, refl, sym, ap, ◌∙◌, subst, ◌⊎◌, inl, inr, Bool-cases, ==_iff, Bool, true,
  false, List, [], ◌∷◌, arith,
}
use crust_core.Daemon.Task.{
  RiskTier, high, at_least, TaskShape, dependency_change, workflow_change, security_sensitive,
}
use crust_core.Daemon.Review.{
  Role, supervisor, planner, researcher, repo_analyst, architect, implementer, tester, reviewer,
  security_auditor, dependency_analyst, release_manager, documentation_writer, external_codex,
  external_claude_code, external_command, role_place, role_eq, can_block_integration, Verdict,
  approve, block, integrate, decide_from, required_reviewers, has_reported, missing_of,
}

nth : List Role → ℕ → Role
nth [] n = supervisor
nth (r ∷ rs) zero = r
nth (r ∷ rs) (suc n) = nth rs n

abbrev all_roles : List Role
all_roles =
    supervisor ∷ planner ∷ researcher ∷ repo_analyst ∷ architect ∷ implementer ∷ tester ∷ reviewer
    ∷ security_auditor ∷ dependency_analyst ∷ release_manager ∷ documentation_writer
    ∷ external_codex ∷ external_claude_code ∷ external_command ∷ []

abbrev role_at : ℕ → Role
role_at n = nth all_roles n

role_at-role_place : (r : Role) → role_at (role_place r) ≡ r
unfolding nth role_place
role_at-role_place supervisor = refl
role_at-role_place planner = refl
role_at-role_place researcher = refl
role_at-role_place repo_analyst = refl
role_at-role_place architect = refl
role_at-role_place implementer = refl
role_at-role_place tester = refl
role_at-role_place reviewer = refl
role_at-role_place security_auditor = refl
role_at-role_place dependency_analyst = refl
role_at-role_place release_manager = refl
role_at-role_place documentation_writer = refl
role_at-role_place external_codex = refl
role_at-role_place external_claude_code = refl
role_at-role_place external_command = refl

role_eq_iff : (a b : Role) → (role_eq a b ≡ true) ↔ (a ≡ b)
role_eq_iff a b = (
  λ e.
      sym (role_at-role_place a)
      ∙ ap role_at ((==_iff (role_place a) (role_place b)).0 e)
      ∙ role_at-role_place b,
  λ e. (==_iff (role_place a) (role_place b)).1 (ap role_place e),
)

-- The role gave a verdict.
abbrev pub Reported : Role → List (Role × Verdict) → Type 0
Reported r [] = ⊥
Reported r ((role, verdict) ∷ rest) = (role ≡ r) ⊎ Reported r rest

abbrev pub AllReported : List Role → List (Role × Verdict) → Type 0
AllReported [] verdicts = Unit {0}
AllReported (r ∷ rs) verdicts = Reported r verdicts × AllReported rs verdicts

-- Every role that can block integration approves.
abbrev pub NoVeto : List (Role × Verdict) → Type 0
NoVeto [] = Unit {0}
NoVeto ((role, verdict) ∷ rest) =
    (can_block_integration role ≡ true → verdict ≡ approve) × NoVeto rest

abbrev SawBlocking : List (Role × Verdict) → Type 0
SawBlocking [] = ⊥
SawBlocking ((role, verdict) ∷ rest) = (can_block_integration role ≡ true) ⊎ SawBlocking rest

has_reported_iff :
    (r : Role) (vs : List (Role × Verdict)) → (has_reported r vs ≡ true) ↔ Reported r vs
unfolding has_reported
has_reported_iff r [] = ground arith
has_reported_iff r ((role, v) ∷ rest) = elim (Bool-cases (role_eq role r)) [
  | inl t ↦ (λ e. inl ((role_eq_iff role r).0 t), λ h. rw t refl)
  | inr t ↦ (
    λ e. inr ((has_reported_iff r rest).0 (rw t at e)),
    λ h. rw t (elim h [
      | inl q ↦ absurd (ground (arith, t, (role_eq_iff role r).1 q))
      | inr m ↦ (has_reported_iff r rest).1 m
    ]),
  )
]

pub missing_of_iff :
    (rs : List Role) (vs : List (Role × Verdict)) → (missing_of rs vs ≡ []) ↔ AllReported rs vs
unfolding missing_of
missing_of_iff [] vs = (λ e. tt, λ h. refl)
missing_of_iff (r ∷ rs) vs = elim (Bool-cases (has_reported r vs)) [
  | inl t ↦ (
    λ e. ((has_reported_iff r vs).0 t, (missing_of_iff rs vs).0 (rw t at e)),
    λ h. rw t ((missing_of_iff rs vs).1 h.1),
  )
  | inr t ↦ (λ e. ground (arith, rw t at e), λ h. ground (arith, t, (has_reported_iff r vs).1 h.0))
]

pub decide_from_sound :
    (vs : List (Role × Verdict)) (saw verified : Bool)
    → decide_from vs saw verified ≡ integrate
    → NoVeto vs × (verified ≡ true)
unfolding decide_from
decide_from_sound [] false verified e = ground arith
decide_from_sound [] true false e = ground arith
decide_from_sound [] true true e = (tt, refl)
decide_from_sound ((role, approve) ∷ rest) saw verified e =
    elim (Bool-cases (can_block_integration role)) [
      | inl t ↦
          let more = decide_from_sound rest true verified (rw t at e) in
          ((λ q. refl, more.0), more.1)
      | inr t ↦
          let more = decide_from_sound rest saw verified (rw t at e) in
          ((λ q. refl, more.0), more.1)
    ]
decide_from_sound ((role, block reason) ∷ rest) saw verified e =
    elim (Bool-cases (can_block_integration role)) [
      | inl t ↦ ground (arith, rw t at e)
      | inr t ↦
          let more = decide_from_sound rest saw verified (rw t at e) in
          ((λ q. ground (arith, t, q), more.0), more.1)
    ]

still_saw :
    (role : Role) (v : Verdict) (rest : List (Role × Verdict)) (saw : Bool)
    → can_block_integration role ≡ false
    → (saw ≡ true) ⊎ SawBlocking ((role, v) ∷ rest)
    → (saw ≡ true) ⊎ SawBlocking rest
still_saw role v rest saw t (inl e) = inl e
still_saw role v rest saw t (inr (inl e)) = ground (arith, t, e)
still_saw role v rest saw t (inr (inr s)) = inr s

pub decide_from_complete :
    (vs : List (Role × Verdict)) (saw : Bool)
    → NoVeto vs
    → (saw ≡ true) ⊎ SawBlocking vs
    → decide_from vs saw true ≡ integrate
unfolding decide_from
decide_from_complete [] saw h (inl e) = rw e refl
decide_from_complete [] saw h (inr e) = absurd e
decide_from_complete ((role, v) ∷ rest) saw h s = elim (Bool-cases (can_block_integration role)) [
  | inl t ↦ rw (t, h.0 t) (decide_from_complete rest true h.1 (inl refl))
  | inr t ↦ rw t (decide_from_complete rest saw h.1 (still_saw role v rest saw t s))
]

pub Reported-SawBlocking :
    (r : Role) (vs : List (Role × Verdict))
    → can_block_integration r ≡ true
    → Reported r vs
    → SawBlocking vs
Reported-SawBlocking r [] b h = absurd h
Reported-SawBlocking r ((role, v) ∷ rest) b (inl e) =
    inl (subst (λ x. can_block_integration x ≡ true) (sym e) b)
Reported-SawBlocking r ((role, v) ∷ rest) b (inr h) = inr (Reported-SawBlocking r rest b h)

-- A panel that is not empty begins with the reviewer.
pub panel :
    (task : TaskShape) (risk : RiskTier)
    → (required_reviewers task risk ≡ [])
      ⊎ ((rs : List Role) × (required_reviewers task risk ≡ reviewer ∷ rs))
unfolding required_reviewers
panel security_sensitive risk = inr (security_auditor ∷ [], refl)
panel workflow_change risk = inr (security_auditor ∷ [], refl)
panel dependency_change risk = inr (security_auditor ∷ [], refl)
panel _ risk = elim (Bool-cases (at_least risk high)) [
  | inl t ↦ rw t (inr ([], refl))
  | inr t ↦ rw t (inl refl)
]

-- The panel has reported, and no role that can block integration blocks it.
abbrev pub Cleared : List Role → List (Role × Verdict) → Type 0
Cleared required verdicts = (required ≡ []) ⊎ (AllReported required verdicts × NoVeto verdicts)
