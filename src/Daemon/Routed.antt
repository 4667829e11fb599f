-- ===== src/Daemon/Routed.antt =====
-- What the router chooses.
use crust_core.Prelude.{
  ℕ, zero, suc, ◌≤◌, ◌≡◌, ◌≢◌, ◌↔◌, refl, sym, ap, ◌∙◌, ◌⊎◌, inl, inr, Bool-cases, ==_iff, ◌||◌,
  ◌&&◌, leb, if◌then◌else◌, Bool, true, false, List, [], ◌∷◌, ◌++◌, length, arith,
}
use crust_core.Daemon.Task.{
  RiskTier, low, standard, critical, at_least, ExecutorKind, native, codex, claude_code,
  local_model, external_command, mcp_tool, kind_place, kind_eq, TaskShape,
}
use crust_core.Daemon.Router.{
  RoutingDecision, single_executor, fan_out, requires_plan, blocked, has_kind, pick_single,
  max_fanout, pick_from, pick_fanout, is_workflow, is_sensitive, is_docs, is_feature, fan_or_single,
  route_to, decide_routing,
}

-- The executor is configured.
abbrev pub Has : List ExecutorKind → ExecutorKind → Type 0
Has [] k = ⊥
Has (x ∷ xs) k = (x ≡ k) ⊎ Has xs k

kind_at : List ExecutorKind → ℕ → ExecutorKind
kind_at [] n = native
kind_at (k ∷ ks) zero = k
kind_at (k ∷ ks) (suc n) = kind_at ks n

abbrev all_kinds : List ExecutorKind
all_kinds = native ∷ codex ∷ claude_code ∷ local_model ∷ external_command ∷ mcp_tool ∷ []

kind_at-kind_place : (k : ExecutorKind) → kind_at all_kinds (kind_place k) ≡ k
unfolding kind_at
kind_at-kind_place native = refl
kind_at-kind_place codex = refl
kind_at-kind_place claude_code = refl
kind_at-kind_place local_model = refl
kind_at-kind_place external_command = refl
kind_at-kind_place mcp_tool = refl

kind_eq_iff : (a b : ExecutorKind) → (kind_eq a b ≡ true) ↔ (a ≡ b)
kind_eq_iff a b = (
  λ e.
      sym (kind_at-kind_place a)
      ∙ ap (kind_at all_kinds) ((==_iff (kind_place a) (kind_place b)).0 e)
      ∙ kind_at-kind_place b,
  λ e. (==_iff (kind_place a) (kind_place b)).1 (ap kind_place e),
)

has_kind_iff : (k : ExecutorKind) (xs : List ExecutorKind) → (has_kind k xs ≡ true) ↔ Has xs k
unfolding has_kind
has_kind_iff k [] = ground arith
has_kind_iff k (x ∷ xs) = elim (Bool-cases (kind_eq x k)) [
  | inl t ↦ (λ e. inl ((kind_eq_iff x k).0 t), λ h. rw t refl)
  | inr t ↦ (
    λ e. inr ((has_kind_iff k xs).0 (rw t at e)),
    λ h. rw t (elim h [
      | inl q ↦ absurd (ground (arith, t, (kind_eq_iff x k).1 q))
      | inr m ↦ (has_kind_iff k xs).1 m
    ]),
  )
]

pick_single-Has : (x : ExecutorKind) (xs : List ExecutorKind) → Has (x ∷ xs) (pick_single x xs)
unfolding pick_single
pick_single-Has x xs = elim (Bool-cases (has_kind native (x ∷ xs))) [
  | inl t ↦ rw t ((has_kind_iff native (x ∷ xs)).0 t)
  | inr t ↦ elim (Bool-cases (has_kind claude_code (x ∷ xs))) [
    | inl u ↦ rw (t, u) ((has_kind_iff claude_code (x ∷ xs)).0 u)
    | inr u ↦ rw (t, u) (inl refl)
  ]
]

-- None, one, or two different executors of the list.
abbrev Few : List ExecutorKind → List ExecutorKind → Type 0
Few all [] = Unit {0}
Few all (a ∷ []) = Has all a
Few all (a ∷ b ∷ []) = Has all a × Has all b × (a ≢ b)
Few all (a ∷ b ∷ c ∷ rest) = ⊥

add_one :
    (all out : List ExecutorKind) (k : ExecutorKind)
    → Few all out
    → Has all k
    → leb max_fanout (length out) ≡ false
    → Few all (if has_kind k out then out else out ++ (k ∷ []))
unfolding has_kind
add_one all [] k f h n = h
add_one all (a ∷ []) k f h n = elim (Bool-cases (kind_eq a k)) [
  | inl t ↦ rw t f
  | inr t ↦ rw t (f, h, λ e. ground (arith, t, (kind_eq_iff a k).1 e))
]
add_one all (a ∷ b ∷ []) k f h n = ground arith
add_one all (a ∷ b ∷ c ∷ rest) k f h n = absurd f

pick_from-Few :
    (all ks out : List ExecutorKind)
    → ((k : ExecutorKind) → Has ks k → Has all k)
    → Few all out
    → Few all (pick_from ks out)
unfolding pick_from
pick_from-Few all [] out h f = f
pick_from-Few all (k ∷ ks) out h f = elim (Bool-cases (leb max_fanout (length out))) [
  | inl t ↦ rw t f
  | inr t ↦ rw t (
      pick_from-Few all ks (if has_kind k out then out else out ++ (k ∷ [])) (λ x m. h x (inr m))
        (add_one all out k f (h k (inl refl)) t))
]

-- The task may run without a person: it changes no workflow, is not sensitive, and not critical.
abbrev pub Autonomous : TaskShape → RiskTier → Type 0
Autonomous task risk =
    (is_workflow task ≡ false) × (is_sensitive task ≡ false) × (at_least risk critical ≡ false)

-- What each decision promises.
abbrev pub IsRouted : TaskShape → RiskTier → ℕ → List ExecutorKind → RoutingDecision → Type 0
IsRouted task risk budget configured (single_executor k) = Autonomous task risk × Has configured k
IsRouted task risk budget configured (fan_out fleet) =
    Autonomous task risk
    × (is_feature task ≡ true)
    × (at_least standard risk ≡ true)
    × (2 ≤ budget)
    × (length fleet ≡ 2)
    × Few configured fleet
IsRouted task risk budget configured requires_plan =
    (is_workflow task ≡ false) × ((is_sensitive task ≡ true) ⊎ (at_least risk critical ≡ true))
IsRouted task risk budget configured (blocked reason) =
    (is_workflow task ≡ true) ⊎ (configured ≡ [])

length-Few :
    (all fleet : List ExecutorKind) → Few all fleet → leb 2 (length fleet) ≡ true → length fleet ≡ 2
length-Few all [] f e = ground arith
length-Few all (a ∷ []) f e = ground arith
length-Few all (a ∷ b ∷ []) f e = refl
length-Few all (a ∷ b ∷ c ∷ rest) f e = absurd f

and_parts : (a b : Bool) → (a && b) ≡ true → (a ≡ true) × (b ≡ true)
and_parts a b e = ground arith

or_parts : (a b : Bool) → (a || b) ≡ true → (a ≡ true) ⊎ (b ≡ true)
or_parts a b e = ground arith

nor_parts : (a b : Bool) → (a || b) ≡ false → (a ≡ false) × (b ≡ false)
nor_parts a b e = ground arith

fan_or_single-IsRouted :
    (task : TaskShape) (risk : RiskTier) (budget : ℕ) (x : ExecutorKind) (xs : List ExecutorKind)
    → Autonomous task risk
    → IsRouted task risk budget
        (x ∷ xs)
        (fan_or_single (is_feature task && at_least standard risk && leb 2 budget) x xs)
unfolding fan_or_single
fan_or_single-IsRouted task risk budget x xs auto =
    let affordable = is_feature task && at_least standard risk && leb 2 budget in
    let fleet = pick_fanout (x ∷ xs) in
    elim (Bool-cases (affordable && leb 2 (length fleet))) [
      | inr t ↦ rw t (auto, pick_single-Has x xs)
      | inl t ↦
          let (c, enough) = and_parts affordable (leb 2 (length fleet)) t in
          let few = pick_from-Few (x ∷ xs) (x ∷ xs) [] (λ k h. h) tt in
          rw t (
            auto,
            ground (arith, c),
            ground (arith, c),
            ground (arith, c),
            length-Few (x ∷ xs) fleet few enough,
            few,
          )
    ]

route_to-IsRouted :
    (task : TaskShape) (risk : RiskTier) (budget : ℕ) (x : ExecutorKind) (xs : List ExecutorKind)
    → is_workflow task ≡ false
    → IsRouted task risk budget (x ∷ xs) (route_to task risk budget x xs)
unfolding route_to
route_to-IsRouted task risk budget x xs w =
    elim (Bool-cases (is_sensitive task || at_least risk critical)) [
      | inl t ↦ rw t (w, or_parts (is_sensitive task) (at_least risk critical) t)
      | inr t ↦
          let calm = nor_parts (is_sensitive task) (at_least risk critical) t in
          let auto : Autonomous task risk = (w, calm.0, calm.1) in
          elim (Bool-cases (is_docs task || at_least low risk)) [
            | inl u ↦ rw (t, u) (auto, pick_single-Has x xs)
            | inr u ↦ rw (t, u) (fan_or_single-IsRouted task risk budget x xs auto)
          ]
    ]

-- Whatever the router decides: a task is blocked only when it changes a workflow or when no executor
-- is configured, and sent to a plan only when it is sensitive or critical; otherwise it is neither of
-- these, and it runs on one configured executor, or, for a feature of at most standard risk with a
-- budget of at least two, on two different configured executors.
pub decide_routing-IsRouted :
    (task : TaskShape) (risk : RiskTier) (budget : ℕ) (configured : List ExecutorKind)
    → IsRouted task risk budget configured (decide_routing task risk budget configured)
unfolding decide_routing
decide_routing-IsRouted task risk budget [] = elim (Bool-cases (is_workflow task)) [
  | inl t ↦ rw t (inl t)
  | inr t ↦ rw t (inr refl)
]
decide_routing-IsRouted task risk budget (x ∷ xs) = elim (Bool-cases (is_workflow task)) [
  | inl t ↦ rw t (inl t)
  | inr t ↦ rw t (route_to-IsRouted task risk budget x xs t)
]
