-- ===== src/Types/Budget/Laws.antt =====
-- What `Budget::record` and `Budget::check` promise.
use crust_core.Prelude.{◌≤◌, ◌<◌, ◌≡◌, ◌≢◌, ◌↔◌, ◌∙◌, refl, ap, true, arith}
use crust_core.Types.Word.{u64_max}
use crust_core.Types.Budget.{
  BudgetAxis, wall_millis, cpu_millis, memory_bytes, disk_bytes, output_bytes, tokens,
  model_cost_micros, subagent_count, Meter, Budget, BudgetDelta, BudgetCheck, within_budget,
  exhausted, meter, amount, add, check, record_delta, is_fully_bounded,
}

-- Every axis is charged exactly its own amount, saturating, and keeps its limit.
pub meter-record_delta :
    (b : Budget) (d : BudgetDelta) (a : BudgetAxis)
    → meter (record_delta b d).0 a ≡ add (meter b a) (amount d a)
unfolding record_delta
meter-record_delta b d wall_millis = refl
meter-record_delta b d _ = refl

check-record_delta :
    (b : Budget) (d : BudgetDelta) → check (record_delta b d).0 ≡ (record_delta b d).1
unfolding record_delta
check-record_delta b d = refl

pub is_fully_bounded-record_delta :
    (b : Budget) (d : BudgetDelta) → is_fully_bounded (record_delta b d).0 ≡ is_fully_bounded b
unfolding record_delta is_fully_bounded
is_fully_bounded-record_delta b d = refl

pub limit_ne_max_of_bounded :
    (b : Budget) (a : BudgetAxis) → is_fully_bounded b ≡ true → (meter b a).limit ≢ u64_max
unfolding is_fully_bounded
limit_ne_max_of_bounded b wall_millis h = ground arith
limit_ne_max_of_bounded b _ h = ground arith

pub check-within :
    (b : Budget) (a : BudgetAxis) → check b ≡ within_budget → (meter b a).used ≤ (meter b a).limit
unfolding check
check-within b wall_millis h = ground arith
check-within b _ h = ground arith

pub check-exhausted :
    (b : Budget) (a : BudgetAxis) → check b ≡ exhausted a → (meter b a).limit < (meter b a).used
unfolding check
check-exhausted b wall_millis h = ground arith
check-exhausted b _ h = ground arith

-- The budget check passes exactly when every axis is within its limit.
pub check_iff :
    (b : Budget)
    → (check b ≡ within_budget) ↔ ((a : BudgetAxis) → (meter b a).used ≤ (meter b a).limit)
unfolding check
check_iff b = (
  λ h a. check-within b a h,
  λ h. ground (
    arith,
    h wall_millis,
    h cpu_millis,
    h memory_bytes,
    h disk_bytes,
    h output_bytes,
    h tokens,
    h model_cost_micros,
    h subagent_count,
  ),
)

exhausted_of : (c : BudgetCheck) → c ≢ within_budget → (a : BudgetAxis) × (c ≡ exhausted a)
exhausted_of within_budget h = absurd (h refl)
exhausted_of (exhausted a) h = (a, refl)

-- A budget that a delta exhausts stays exhausted: the fold of any further delta reports an
-- exhausted axis again.
pub record_delta-exhausted_stays :
    (b : Budget) (d d' : BudgetDelta) (a : BudgetAxis)
    → (record_delta b d).1 ≡ exhausted a
    → (a' : BudgetAxis) × ((record_delta (record_delta b d).0 d').1 ≡ exhausted a')
record_delta-exhausted_stays b d d' a h =
    let b' = (record_delta b d).0 in
    exhausted_of (record_delta b' d').1 λ w. absurd (
      omega (
        arith,
        check-exhausted b' a (check-record_delta b d ∙ h),
        check-within (record_delta b' d').0 a (check-record_delta b' d' ∙ w),
        ap (λ (m : Meter). m.used) (meter-record_delta b' d' a),
        ap (λ (m : Meter). m.limit) (meter-record_delta b' d' a),
        ap (λ (m : Meter). m.used) (meter-record_delta b d a),
      ))
