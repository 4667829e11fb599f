-- ===== src/Eventlog/Parser.antt =====
-- Reading a frame field by field (`read_array` and the early returns of `decode_at` in
-- crates/crustcore-eventlog/src/lib.rs). A parser takes the bytes from the offset on, and leaves
-- those from the next offset on.
use crust_core.Prelude.{ℕ, Bool, true, false, Option, none, some, List, [], ◌∷◌}
use crust_core.Prelude.Bytes.{split}

pub data BreakReason : Type 0 where
  bad_magic bad_version bad_discriminant truncated : BreakReason
  payload_hash_mismatch frame_hash_mismatch prev_hash_mismatch : BreakReason
  non_monotonic_seq head_mismatch : BreakReason

pub data Result {ℓ} (A : Type ℓ) : Type ℓ where
  ok : A → Result A
  err : BreakReason → Result A

abbrev pub Parser : Type 0 → Type 0
Parser A = List ℕ → Result (A × List ℕ)

abbrev pub and_then : {A B : Type 0} → Result (A × List ℕ) → (A → Parser B) → Result (B × List ℕ)
and_then (ok (a, rest)) f = f a rest
and_then (err reason) f = err reason

-- `?`
infixl 5 ◌>>=◌
abbrev pub ◌>>=◌ : {A B : Type 0} → Parser A → (A → Parser B) → Parser B
p >>= f = λ bs. and_then (p bs) f

-- `.ok_or(reason)`
abbrev pub ok_or : {A : Type 0} → BreakReason → Option A → Result A
ok_or reason none = err reason
ok_or reason (some a) = ok a

abbrev pub with_rest : {A : Type 0} → Result A → List ℕ → Result (A × List ℕ)
with_rest (ok a) bs = ok (a, bs)
with_rest (err reason) bs = err reason

-- A result that reads nothing.
abbrev pub lift : {A : Type 0} → Result A → Parser A
lift x = λ bs. with_rest x bs

-- An early return unless the test holds.
abbrev pub require : Bool → BreakReason → Parser (Unit {0})
require true reason = lift (ok tt)
require false reason = lift (err reason)

-- `read_array::<N>(bytes, off).ok_or(Truncated)?`
abbrev pub read : ℕ → Parser (List ℕ)
read n = λ bs. ok_or truncated (split n bs)

-- `*bytes.get(off).ok_or(Truncated)?`
abbrev pub read_byte : Parser ℕ
read_byte [] = err truncated
read_byte (b ∷ bs) = ok (b, bs)
