-- ===== src/Daemon/Agents.antt =====
-- The budgets and the scheduler of agents (supervisor.rs).
use crust_core.Prelude.{
  ℕ, ◌+◌, ◌-◌, ◌≤◌, max, ltb, leb, ◌≡◌, subst, ◌⊎◌, inl, inr, if◌then◌else◌, Bool, true, false,
  Bool-cases, List, [], ◌∷◌, arith,
}
use crust_core.Types.Word.{saturating_add}

pub record AgentBudget : Type 0 where
  pub max_wall_ms : ℕ
  pub max_output_bytes : ℕ
  pub max_tokens : ℕ

pub record AgentUsage : Type 0 where
  pub wall_ms : ℕ
  pub output_bytes : ℕ
  pub tokens : ℕ

pub data BudgetError : Type 0 where
  wall output tokens : BudgetError

abbrev pub add_usage : AgentUsage → AgentUsage → AgentUsage
add_usage u delta = record {
  wall_ms = saturating_add u.wall_ms delta.wall_ms;
  output_bytes = saturating_add u.output_bytes delta.output_bytes;
  tokens = saturating_add u.tokens delta.tokens;
}

-- `AgentUsage::charge`
unfoldable pub charge : AgentUsage → AgentUsage → AgentBudget → AgentUsage ⊎ BudgetError
charge u delta budget =
    let next = add_usage u delta in
    if ltb budget.max_wall_ms next.wall_ms
    then inr wall
    else if ltb budget.max_output_bytes next.output_bytes
    then inr output
    else if ltb budget.max_tokens next.tokens
    then inr BudgetError.tokens
    else inl next

pub record Scheduler : Type 0 where
  pub max_concurrent : ℕ
  pub running : ℕ

-- `Scheduler::new`
abbrev pub new_scheduler : ℕ → Scheduler
new_scheduler max_concurrent = record { max_concurrent = max max_concurrent 1; running = 0 }

-- `Scheduler::try_spawn`, and whether it spawned
unfoldable pub try_spawn : Scheduler → Scheduler × Bool
try_spawn s =
    if leb s.max_concurrent s.running
    then (s, false)
    else (record s { running = s.running + 1 }, true)

-- `Scheduler::finish`
unfoldable pub finish : Scheduler → Scheduler
finish s = record s { running = s.running - 1 }

-- A call of the scheduler.
pub data Call : Type 0 where
  spawn done : Call

abbrev pub call : Call → Scheduler → Scheduler
call spawn s = (try_spawn s).0
call done s = finish s

unfoldable pub call_all : List Call → Scheduler → Scheduler
call_all [] s = s
call_all (c ∷ cs) s = call_all cs (call c s)

room : (most now : ℕ) → leb most now ≡ false → now + 1 ≤ most
room most now t = ground arith

spawn_running :
    (s : Scheduler)
    → s.running ≤ s.max_concurrent
    → (try_spawn s).0.running ≤ (try_spawn s).0.max_concurrent
unfolding try_spawn
spawn_running s h = elim (Bool-cases (leb s.max_concurrent s.running)) [
  | inl t ↦ rw t h
  | inr t ↦ rw t (room s.max_concurrent s.running t)
]

call_running :
    (c : Call) (s : Scheduler)
    → s.running ≤ s.max_concurrent
    → (call c s).running ≤ (call c s).max_concurrent
unfolding finish
call_running done s h = omega (arith, h)
call_running spawn s h = spawn_running s h

-- After any calls, no more agents run than the cap of the scheduler allows.
pub call_all_running :
    (cs : List Call) (s : Scheduler)
    → s.running ≤ s.max_concurrent
    → (call_all cs s).running ≤ (call_all cs s).max_concurrent
unfolding call_all
call_all_running [] s h = h
call_all_running (c ∷ cs) s h = call_all_running cs (call c s) (call_running c s h)

inl_eq : (a b : AgentUsage) → ◌≡◌ {A = AgentUsage ⊎ BudgetError} (inl a) (inl b) → a ≡ b
inl_eq a b e = ground arith

allowed :
    (most used : ℕ) (error : BudgetError) (more : AgentUsage ⊎ BudgetError) (next : AgentUsage)
    → (if ltb most used then inr error else more) ≡ inl next
    → (used ≤ most) × (more ≡ inl next)
allowed most used error more next e = elim (Bool-cases (ltb most used)) [
  | inl t ↦ ground (arith, rw t at e)
  | inr t ↦ (ground arith, rw t at e)
]

-- The usage that a charge returns is within the budget on every axis.
pub charge_within :
    (u delta : AgentUsage) (budget : AgentBudget) (next : AgentUsage)
    → charge u delta budget ≡ inl next
    → (next.wall_ms ≤ budget.max_wall_ms)
      × (next.output_bytes ≤ budget.max_output_bytes)
      × (next.tokens ≤ budget.max_tokens)
unfolding charge
charge_within u delta budget next e =
    let sum = add_usage u delta in
    let g1 = allowed budget.max_wall_ms sum.wall_ms wall _ next e in
    let g2 = allowed budget.max_output_bytes sum.output_bytes output _ next g1.1 in
    let g3 = allowed budget.max_tokens sum.tokens BudgetError.tokens _ next g2.1 in
    subst
      (λ x.
        (x.wall_ms ≤ budget.max_wall_ms)
        × (x.output_bytes ≤ budget.max_output_bytes)
        × (x.tokens ≤ budget.max_tokens))
      (inl_eq sum next g3.1) (g1.0, g2.0, g3.0)
