-- ===== src/Prelude/Bytes.antt =====
-- Numbers as little-endian bytes, and reading a given number of bytes off a list.
use Prim.Native.Nat.{ℕ, zero, suc, ◌+◌, ◌*◌, ◌/◌, ◌%◌, ◌^◌, ◌<◌}
use mathlib.Core.Path.{◌≡◌, refl, subst, ap}
use mathlib.Core.Option.{Option, none, some}
use mathlib.Core.List.{List, [], ◌∷◌, ◌++◌}
use native.Mathlib.Omega.{arith}
use mathlib.Core.Logic.{inl, inr}
use crust_core.Prelude.Lists.{length}
use crust_core.Prelude.Tests.{Option-cases}

-- `to_le_bytes` of a number of `k` bytes
unfoldable pub to_le : ℕ → ℕ → List ℕ
to_le zero n = []
to_le (suc k) n = n % 256 ∷ to_le k (n / 256)

-- `from_le_bytes`
unfoldable pub from_le : List ℕ → ℕ
from_le [] = 0
from_le (b ∷ bs) = b + 256 * from_le bs

abbrev with_front : ℕ → Option (List ℕ × List ℕ) → Option (List ℕ × List ℕ)
with_front b none = none
with_front b (some (front, rest)) = some (b ∷ front, rest)

-- The first `n` bytes and the rest, if there are so many.
unfoldable pub split : ℕ → List ℕ → Option (List ℕ × List ℕ)
split zero bs = some ([], bs)
split (suc n) [] = none
split (suc n) (b ∷ bs) = with_front b (split n bs)

pub length-to_le : (k n : ℕ) → length (to_le k n) ≡ k
unfolding to_le
length-to_le zero n = refl
length-to_le (suc k) n = ap suc (length-to_le k (n / 256))

pub from_le-to_le : (k n : ℕ) → n < 256 ^ k → from_le (to_le k n) ≡ n
unfolding to_le from_le
from_le-to_le zero n h = omega arith
from_le-to_le (suc k) n h = grind (arith, from_le-to_le k (n / 256))

pub split-append : (xs ys : List ℕ) → split (length xs) (xs ++ ys) ≡ some (xs, ys)
unfolding split
split-append [] ys = refl
split-append (x ∷ xs) ys = rw (split-append xs ys) refl

-- The same with the length as an equation.
pub split-append_of : (n : ℕ) (xs ys : List ℕ) → length xs ≡ n → split n (xs ++ ys) ≡ some (xs, ys)
split-append_of n xs ys e = subst (λ m. split m (xs ++ ys) ≡ some (xs, ys)) e (split-append xs ys)

-- What was read and the rest make up the bytes.
pub append-split :
    (n : ℕ) (bs front rest : List ℕ)
    → split n bs ≡ some (front, rest)
    → (front ++ rest ≡ bs) × (length front ≡ n)
unfolding split
append-split zero bs front rest e = ground arith
append-split (suc n) [] front rest e = ground arith
append-split (suc n) (b ∷ bs) front rest e = elim (Option-cases (split n bs)) [
  | inl s ↦ cc (s, e)
  | inr ((front', rest'), s) ↦ ground (arith, append-split n bs front' rest' s)
]
