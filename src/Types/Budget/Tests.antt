-- ===== src/Types/Budget/Tests.antt =====
-- Budgets at concrete inputs.
use crust_core.Prelude.{◌≤◌, ◌≡◌, ◌↔◌, refl, false}
use crust_core.Types.Budget.{
  BudgetAxis, tokens, standard_task, delta_of, no_delta, within_budget, exhausted, meter, check,
  record_delta, bounded_on, add_on, check_on, is_fully_bounded, unlimited, with_amount,
}
use crust_core.Types.Budget.Laws.{check_iff, record_delta-exhausted_stays}

-- `over_limit_axis_is_exhausted` of the source's tests
too_many_tokens : (record_delta standard_task (delta_of tokens 1000001)).1 ≡ exhausted tokens
unfolding record_delta add_on check check_on delta_of with_amount
too_many_tokens = refl

exactly_enough_tokens : (record_delta standard_task (delta_of tokens 1000000)).1 ≡ within_budget
unfolding record_delta add_on check check_on delta_of with_amount
exactly_enough_tokens = refl

unlimited_unbounded : is_fully_bounded unlimited ≡ false
unfolding is_fully_bounded bounded_on
unlimited_unbounded = refl

check_iff_example :
    (check standard_task ≡ within_budget)
    ↔ ((a : BudgetAxis) → (meter standard_task a).used ≤ (meter standard_task a).limit)
check_iff_example = check_iff standard_task

record_delta-exhausted_stays_example :
    (a' : BudgetAxis) × ((record_delta
        (record_delta standard_task (delta_of tokens 1000001)).0
        no_delta).1
      ≡ exhausted a')
record_delta-exhausted_stays_example =
    record_delta-exhausted_stays standard_task (delta_of tokens 1000001) no_delta tokens
      too_many_tokens
