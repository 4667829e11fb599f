-- ===== src/Prelude/Arena.antt =====
-- An arena is a list of records with a key. An index that `position` found for a key is
-- represented by the key: `modify key i f xs` writes at the first record whose key is `i`.
use Prim.Native.Nat.{ℕ}
use mathlib.Core.Path.{◌≡◌, refl, sym, ap, subst, ◌∙◌}
use mathlib.Core.Bool.{Bool}
use mathlib.Core.Option
use mathlib.Core.Option.{Option, none, some, some-injective}
use mathlib.Core.Logic.{inl, inr}
use mathlib.Core.List.{List, [], ◌∷◌, ◌++◌}
use native.Mathlib.Omega.{arith}
use crust_core.Prelude.Tests.{◌==◌, ==_iff, Bool-cases, if◌then◌else◌}
use crust_core.Prelude.Lists.{All}

module _ {ℓ} {A : Type ℓ} (key : A → ℕ) where
  -- `xs.iter().find(|x| x.id == i)`
  unfoldable pub find : ℕ → List A → Option A
  find i [] = none
  find i (x ∷ xs) = if key x == i then some x else find i xs

  -- `xs[idx] = f(xs[idx])` for the position `idx` of the key `i`
  unfoldable pub modify : ℕ → (A → A) → List A → List A
  modify i f [] = []
  modify i f (x ∷ xs) = if key x == i then f x ∷ xs else x ∷ modify i f xs

module _ {ℓ κ} {A : Type ℓ} (P : A → Type κ) (key : A → ℕ) where
  -- A write that keeps a predicate keeps it of the whole arena.
  pub All-modify :
      (i : ℕ) (f : A → A) (xs : List A)
      → ((a : A) → P a → P (f a))
      → All P xs
      → All P (modify key i f xs)
  unfolding modify
  All-modify i f [] keep h = h
  All-modify i f (x ∷ xs) keep h = elim (Bool-cases (key x == i)) [
    | inl e ↦ rw e (keep x h.0, h.1)
    | inr e ↦ rw e (h.0, All-modify i f xs keep h.1)
  ]

  -- The same where the new record is known to have the predicate.
  pub All-modify_at :
      (i : ℕ) (f : A → A) (xs : List A) {a : A}
      → find key i xs ≡ some a
      → P (f a)
      → All P xs
      → All P (modify key i f xs)
  unfolding modify find
  All-modify_at i f [] found p h = h
  All-modify_at i f (x ∷ xs) found p h = elim (Bool-cases (key x == i)) [
    | inl e ↦ rw e (subst P (ap f (some-injective _ _ (sym (rw e at found)))) p, h.1)
    | inr e ↦ rw e (h.0, All-modify_at i f xs (rw e at found) p h.1)
  ]

  pub find-All : (i : ℕ) (xs : List A) {a : A} → find key i xs ≡ some a → All P xs → P a
  unfolding find
  find-All i [] found h = cc
  find-All i (x ∷ xs) found h = elim (Bool-cases (key x == i)) [
    | inl e ↦ subst P (some-injective _ _ (rw e at found)) h.0
    | inr e ↦ find-All i xs (rw e at found) h.1
  ]

module _ {ℓ} {A : Type ℓ} (key : A → ℕ) where
  pub key-find : (i : ℕ) (xs : List A) {a : A} → find key i xs ≡ some a → key a ≡ i
  unfolding find
  key-find i [] found = cc
  key-find i (x ∷ xs) {a} found = elim (Bool-cases (key x == i)) [
    | inl e ↦ ap key (sym (some-injective _ _ (rw e at found))) ∙ (==_iff (key x) i).0 e
    | inr e ↦ key-find i xs (rw e at found)
  ]

  -- What a lookup finds after a write that keeps the keys.
  pub find-modify :
      (i j : ℕ) (f : A → A) (xs : List A)
      → ((a : A) → key (f a) ≡ key a)
      → find key j (modify key i f xs)
        ≡ (if i == j then Option.map f (find key j xs) else find key j xs)
  unfolding find modify
  find-modify i j f [] keep = ground arith
  find-modify i j f (x ∷ xs) keep = ground (arith, keep x, find-modify i j f xs keep)

  pub find-append :
      (i : ℕ) (xs ys : List A)
      → find key i (xs ++ ys) ≡ elim (find key i xs) [ none ↦ find key i ys | some a ↦ some a ]
  unfolding find
  find-append i [] ys = refl
  find-append i (x ∷ xs) ys = ground (arith, find-append i xs ys)

  -- What is found in the first part is found in the whole.
  pub find-append_left :
      (i : ℕ) (xs ys : List A) {a : A} → find key i xs ≡ some a → find key i (xs ++ ys) ≡ some a
  unfolding find
  find-append_left i [] ys found = cc
  find-append_left i (x ∷ xs) ys {a} found = ground (arith, find-append_left i xs ys {a = a})

module _ {ℓ} {A : Type ℓ} where
  -- `for x in xs.iter_mut().filter(p) { *x = f(x) }`
  unfoldable pub map_where : (A → Bool) → (A → A) → List A → List A
  map_where p f [] = []
  map_where p f (x ∷ xs) = (if p x then f x else x) ∷ map_where p f xs

module _ {ℓ κ} {A : Type ℓ} (P : A → Type κ) where
  pub All-map_where :
      (p : A → Bool) (f : A → A) (xs : List A)
      → ((a : A) → P a → P (f a))
      → All P xs
      → All P (map_where p f xs)
  unfolding map_where
  All-map_where p f [] keep h = h
  All-map_where p f (x ∷ xs) keep h = elim (Bool-cases (p x)) [
    | inl e ↦ rw e (keep x h.0, All-map_where p f xs keep h.1)
    | inr e ↦ rw e (h.0, All-map_where p f xs keep h.1)
  ]
