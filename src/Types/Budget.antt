-- ===== src/Types/Budget.antt =====
-- Budgets (crates/crustcore-types/src/budget.rs). A fixed array with one slot for each axis is a
-- record with one field for each axis, read and written through the axis.
pub mod Laws
mod Tests
use crust_core.Prelude.{
  ℕ, Bool, true, false, Option, none, some, List, [], ◌∷◌, ◌&&◌, not, leb, ◌==◌, if◌then◌else◌,
}
use crust_core.Types.Word.{u64_max, saturating_add}

pub data BudgetAxis : Type 0 where
  wall_millis cpu_millis memory_bytes disk_bytes output_bytes tokens : BudgetAxis
  model_cost_micros subagent_count : BudgetAxis

-- `BudgetAxis::ALL`
abbrev pub all_axes : List BudgetAxis
all_axes =
    wall_millis ∷ cpu_millis ∷ memory_bytes ∷ disk_bytes ∷ output_bytes ∷ tokens ∷ model_cost_micros
    ∷ subagent_count ∷ []

-- `[A; BUDGET_AXIS_COUNT]`
pub record Axes (A : Type 0) : Type 0 where
  pub at_wall : A
  pub at_cpu : A
  pub at_memory : A
  pub at_disk : A
  pub at_output : A
  pub at_tokens : A
  pub at_model_cost : A
  pub at_subagents : A

-- `array[axis.index()]`
abbrev pub get : {A : Type 0} → Axes A → BudgetAxis → A
get x wall_millis = x.at_wall
get x cpu_millis = x.at_cpu
get x memory_bytes = x.at_memory
get x disk_bytes = x.at_disk
get x output_bytes = x.at_output
get x tokens = x.at_tokens
get x model_cost_micros = x.at_model_cost
get x subagent_count = x.at_subagents

-- `array[axis.index()] = v`
abbrev pub set : {A : Type 0} → Axes A → BudgetAxis → A → Axes A
set x wall_millis v = record x { at_wall = v }
set x cpu_millis v = record x { at_cpu = v }
set x memory_bytes v = record x { at_memory = v }
set x disk_bytes v = record x { at_disk = v }
set x output_bytes v = record x { at_output = v }
set x tokens v = record x { at_tokens = v }
set x model_cost_micros v = record x { at_model_cost = v }
set x subagent_count v = record x { at_subagents = v }

-- `[v; BUDGET_AXIS_COUNT]`
abbrev pub fill : {A : Type 0} → A → Axes A
fill v = record {
  at_wall = v;
  at_cpu = v;
  at_memory = v;
  at_disk = v;
  at_output = v;
  at_tokens = v;
  at_model_cost = v;
  at_subagents = v;
}

pub record Meter : Type 0 where
  pub used : ℕ  -- u64
  pub limit : ℕ  -- u64

-- `Meter::with_limit`
abbrev pub meter_with_limit : ℕ → Meter
meter_with_limit limit = record { used = 0; limit = limit }

-- `Meter::UNLIMITED`
abbrev pub unlimited_meter : Meter
unlimited_meter = record { used = 0; limit = u64_max }

-- `Meter::within`
abbrev pub within : Meter → Bool
within m = leb m.used m.limit

-- `Meter::add`
abbrev pub add : Meter → ℕ → Meter
add m delta = record m { used = saturating_add m.used delta }

abbrev pub BudgetDelta : Type 0
BudgetDelta = Axes ℕ

-- `BudgetDelta::none`
abbrev pub no_delta : BudgetDelta
no_delta = fill 0

-- `BudgetDelta::with`
unfoldable pub with_amount : BudgetDelta → BudgetAxis → ℕ → BudgetDelta
with_amount d axis amount = set d axis (saturating_add (get d axis) amount)

-- `BudgetDelta::of`
unfoldable pub delta_of : BudgetAxis → ℕ → BudgetDelta
unfolding with_amount
delta_of axis amount = with_amount no_delta axis amount

-- `BudgetDelta::amount`
abbrev pub amount : BudgetDelta → BudgetAxis → ℕ
amount d axis = get d axis

pub data BudgetCheck : Type 0 where
  within_budget : BudgetCheck
  exhausted : BudgetAxis → BudgetCheck

-- `BudgetCheck::exhausted_axis`
abbrev pub exhausted_axis : BudgetCheck → Option BudgetAxis
exhausted_axis within_budget = none
exhausted_axis (exhausted a) = some a

abbrev pub Budget : Type 0
Budget = Axes Meter

-- `Budget::meter`
abbrev pub meter : Budget → BudgetAxis → Meter
meter b axis = get b axis

-- `Budget::standard_task`
abbrev pub standard_task : Budget
standard_task = record {
  at_wall = meter_with_limit 3600000;
  at_cpu = meter_with_limit 3600000;
  at_memory = meter_with_limit 4294967296;
  at_disk = meter_with_limit 2147483648;
  at_output = meter_with_limit 268435456;
  at_tokens = meter_with_limit 1000000;
  at_model_cost = meter_with_limit 100000000;
  at_subagents = meter_with_limit 8;
}

-- `Budget::unlimited`
abbrev pub unlimited : Budget
unlimited = fill unlimited_meter

-- `Budget::with_limit`
unfoldable pub with_limit : Budget → BudgetAxis → ℕ → Budget
with_limit b axis limit = set b axis (record (meter b axis) { limit = limit })

-- The loop of `Budget::is_fully_bounded` over the axes.
unfoldable pub bounded_on : List BudgetAxis → Budget → Bool
bounded_on [] b = true
bounded_on (axis ∷ rest) b = not ((meter b axis).limit == u64_max) && bounded_on rest b

-- `Budget::is_fully_bounded`
unfoldable pub is_fully_bounded : Budget → Bool
unfolding bounded_on
is_fully_bounded b = bounded_on all_axes b

-- The loop of `Budget::record`.
unfoldable pub add_on : List BudgetAxis → BudgetDelta → Budget → Budget
add_on [] d b = b
add_on (axis ∷ rest) d b = add_on rest d (set b axis (add (meter b axis) (amount d axis)))

-- The loop of `Budget::check`.
unfoldable pub check_on : List BudgetAxis → Budget → BudgetCheck
check_on [] b = within_budget
check_on (axis ∷ rest) b =
    let later = check_on rest b in if within (meter b axis) then later else exhausted axis

-- `Budget::check`
unfoldable pub check : Budget → BudgetCheck
unfolding check_on
check b = check_on all_axes b

-- `Budget::record`: the budget after the fold, and its check.
unfoldable pub record_delta : Budget → BudgetDelta → Budget × BudgetCheck
unfolding add_on check
record_delta b d = let b' = add_on all_axes d b in (b', check b')
