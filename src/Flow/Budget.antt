-- ===== src/Flow/Budget.antt =====
-- The budget of a flow (crates/crustcore-flow/src/budget.rs). A charge that returns an error leaves
-- the usage as it is, so `inr` carries the breach only.
use Prim.Native.String.{String}
use crust_core.Prelude.{ℕ, ltb, if◌then◌else◌, ◌⊎◌, inl, inr}
pub use crust_core.Types.Word.{u32_max, saturating_add_u32}
use crust_core.Types.Word.{saturating_add}

pub record FlowBudget : Type 0 where
  pub max_model_cost : ℕ
  pub max_wall_ms : ℕ
  pub max_steps : ℕ
  pub max_total_fanout : ℕ

-- `FlowBudget::fail_closed`
abbrev pub fail_closed : FlowBudget
fail_closed = record { max_model_cost = 0; max_wall_ms = 0; max_steps = 64; max_total_fanout = 0 }

-- `FlowBudget::new`
abbrev pub new : ℕ → ℕ → ℕ → ℕ → FlowBudget
new cost wall steps fanout = record {
  max_model_cost = cost;
  max_wall_ms = wall;
  max_steps = steps;
  max_total_fanout = fanout;
}

pub data BudgetBreach : Type 0 where
  model_cost wall steps fanout : BudgetBreach

-- `BudgetBreach::axis`
abbrev pub axis : BudgetBreach → String
axis BudgetBreach.model_cost = "model cost"
axis BudgetBreach.wall = "wall time"
axis BudgetBreach.steps = "steps"
axis BudgetBreach.fanout = "total fan-out"

pub record FlowUsage : Type 0 where
  pub model_cost : ℕ
  pub wall_ms : ℕ
  pub steps : ℕ
  pub fanout : ℕ

-- `FlowUsage::default`
abbrev pub no_usage : FlowUsage
no_usage = record { model_cost = 0; wall_ms = 0; steps = 0; fanout = 0 }

-- `FlowUsage::charge_step`
unfoldable pub charge_step : FlowUsage → FlowBudget → FlowUsage ⊎ BudgetBreach
charge_step u b =
    let next = saturating_add_u32 u.steps 1 in
    if ltb b.max_steps next then inr BudgetBreach.steps else inl (record u { steps = next })

-- `FlowUsage::charge_model`
unfoldable pub charge_model : FlowUsage → ℕ → FlowBudget → FlowUsage ⊎ BudgetBreach
charge_model u cost b =
    let next = saturating_add u.model_cost cost in
    if ltb b.max_model_cost next
    then inr BudgetBreach.model_cost
    else inl (record u { model_cost = next })

-- `FlowUsage::charge_wall`
unfoldable pub charge_wall : FlowUsage → ℕ → FlowBudget → FlowUsage ⊎ BudgetBreach
charge_wall u ms b =
    let next = saturating_add u.wall_ms ms in
    if ltb b.max_wall_ms next then inr BudgetBreach.wall else inl (record u { wall_ms = next })

-- `FlowUsage::charge_fanout`
unfoldable pub charge_fanout : FlowUsage → ℕ → FlowBudget → FlowUsage ⊎ BudgetBreach
charge_fanout u n b =
    let next = saturating_add_u32 u.fanout n in
    if ltb b.max_total_fanout next
    then inr BudgetBreach.fanout
    else inl (record u { fanout = next })
