-- ===== src/Kernel/Tasks/Arena.antt =====
-- The arena of tasks after writes at one task.
use mathlib.Core.Option.{some-injective}
use crust_core.Prelude.{
  ◌==◌, Bool-cases, ◌≡◌, ◌≢◌, refl, ap, inl, inr, some, List, [], ◌∷◌, arith, All,
}
use crust_core.Prelude.Arena.{find, modify, All-modify_at}
use crust_core.Types.Word.{TaskId}
use crust_core.Kernel.State.{TaskEntry, task_key}

-- The tasks with the record at one id replaced.
unfoldable pub put : TaskId → TaskEntry → List TaskEntry → List TaskEntry
put i t ts = modify task_key i (λ _. t) ts

module _ (i : TaskId) where
  pub put-found :
      (t : TaskEntry) (ts : List TaskEntry) → find task_key i ts ≡ some t → put i t ts ≡ ts
  unfolding put find modify
  put-found t [] found = cc
  put-found t (x ∷ xs) found = ground (arith, put-found t xs)

  pub modify-put :
      (t : TaskEntry) (f : TaskEntry → TaskEntry) (ts : List TaskEntry)
      → find task_key i ts ≡ some t
      → modify task_key i f ts ≡ put i (f t) ts
  unfolding put find modify
  modify-put t f [] found = cc
  modify-put t f (x ∷ xs) found = elim (Bool-cases (x.id == i)) [
    | inl e ↦ rw e (ap (λ y. f y ∷ xs) (some-injective _ _ (rw e at found)))
    | inr e ↦ rw e (ap (λ ys. x ∷ ys) (modify-put t f xs (rw e at found)))
  ]

  pub put-put :
      (s t : TaskEntry) (ts : List TaskEntry) → s.id ≡ i → put i t (put i s ts) ≡ put i t ts
  unfolding put modify
  put-put s t [] same = refl
  put-put s t (x ∷ xs) same = ground (arith, put-put s t xs)

  pub find-put :
      (t t' : TaskEntry) (ts : List TaskEntry)
      → find task_key i ts ≡ some t
      → t'.id ≡ i
      → find task_key i (put i t' ts) ≡ some t'
  unfolding put find modify
  find-put t t' [] found same = cc
  find-put t t' (x ∷ xs) found same = ground (arith, find-put t t' xs)

  pub find-put_ne :
      (j : TaskId) (t : TaskEntry) (ts : List TaskEntry)
      → t.id ≡ i
      → j ≢ i
      → find task_key j (put i t ts) ≡ find task_key j ts
  unfolding put find modify
  find-put_ne j t [] same ne = refl
  find-put_ne j t (x ∷ xs) same ne = ground (arith, find-put_ne j t xs)

  pub All-put :
      (P : TaskEntry → Type 0) (t t' : TaskEntry) (ts : List TaskEntry)
      → find task_key i ts ≡ some t
      → P t'
      → All P ts
      → All P (put i t' ts)
  unfolding put
  All-put P t t' ts found p h = All-modify_at P task_key i (λ _. t') ts found p h
