-- ===== src/Eventlog/Local.antt =====
-- A parser that succeeds depends on what it reads only: whatever follows is left as it is.
use mathlib.Core.List.{append_assoc}
use crust_core.Prelude.{
  ℕ, ◌≡◌, refl, sym, ap, ◌∙◌, ◌⊎◌, inl, inr, Option-cases, Bool, true, false, Option, none, some,
  List, [], ◌∷◌, ◌++◌, arith,
}
use crust_core.Prelude.Bytes.{from_le, split, split-append_of, append-split}
use crust_core.Eventlog.Parser.{
  BreakReason, Result, ok, err, Parser, ◌>>=◌, ok_or, lift, require, read, read_byte,
}
use crust_core.Eventlog.Frame.{
  FrameMeta, read_id, read_code, decode_flags, decode_codes, decode_head, decode_tail, decode_body,
}

-- What `p` read of the bytes, and that it reads the same whatever follows.
abbrev pub Reads : {A : Type 0} → Parser A → List ℕ → A → List ℕ → Type 0
Reads p bs a r = (x : List ℕ) × (bs ≡ x ++ r) × ((t : List ℕ) → p (x ++ t) ≡ ok (a, t))

abbrev pub IsLocal : {A : Type 0} → Parser A → Type 0
IsLocal {A} p = (bs : List ℕ) (a : A) (r : List ℕ) → p bs ≡ ok (a, r) → Reads p bs a r

pub Result-cases :
    {A : Type 0} (x : Result A) → ((a : A) × (x ≡ ok a)) ⊎ ((e : BreakReason) × (x ≡ err e))
Result-cases (ok a) = inl (a, refl)
Result-cases (err e) = inr (e, refl)

lift-IsLocal : {A : Type 0} (x : Result A) → IsLocal (lift x)
lift-IsLocal (ok b) bs a r e = ([], ground arith, λ t. ground (arith, e))
lift-IsLocal (err b) bs a r e = ground arith

require-IsLocal : (b : Bool) (e : BreakReason) → IsLocal (require b e)
require-IsLocal true e = lift-IsLocal (ok tt)
require-IsLocal false e = lift-IsLocal (err e)

read_byte-IsLocal : IsLocal read_byte
read_byte-IsLocal [] a r e = ground arith
read_byte-IsLocal (b ∷ bs) a r e = (b ∷ [], ground arith, λ t. ground (arith, e))

read_eq :
    (x rest a r : List ℕ)
    → ◌≡◌ {A = Result (List ℕ × List ℕ)} (ok (x, rest)) (ok (a, r))
    → (x ≡ a) × (rest ≡ r)
read_eq x rest a r e = ground arith

pair_eq : (x rest a r : List ℕ) → x ≡ a → rest ≡ r → ◌≡◌ {A = List ℕ × List ℕ} (x, rest) (a, r)
pair_eq x rest a r p q = cc

pub read-IsLocal : (n : ℕ) → IsLocal (read n)
read-IsLocal n bs a r e = elim (Option-cases (split n bs)) [
  | inl s ↦ cc (rw s at e)
  | inr ((x, rest), s) ↦
      let q = read_eq x rest a r (rw s at e) in
      let front = append-split n bs a r (s ∙ ap some (pair_eq x rest a r q.0 q.1)) in
      (a, sym front.0, λ t. rw (split-append_of n a t front.1) refl)
]

err_ok : {A : Type 0} (x : BreakReason) (a : A) → err x ≡ ok a → ⊥
err_ok x a e = ground arith

bind-Reads :
    {A B : Type 0} (p : Parser A) (f : A → Parser B) (bs mid r : List ℕ) (a : A) (b : B)
    → Reads p bs a mid
    → Reads (f a) mid b r
    → Reads (p >>= f) bs b r
bind-Reads p f bs mid r a b (x, e, h) (y, e', h') = (
  x ++ y,
  e ∙ ap (λ z. x ++ z) e' ∙ sym (append_assoc x y r),
  λ t. rw (append_assoc x y t, h (y ++ t)) (h' t),
)

bind-IsLocal :
    {A B : Type 0} (p : Parser A) (f : A → Parser B)
    → IsLocal p
    → ((a : A) → IsLocal (f a))
    → IsLocal (p >>= f)
bind-IsLocal p f hp hf bs b r e = elim (Result-cases (p bs)) [
  | inr (x, s) ↦ absurd (err_ok x (b, r) (rw s at e))
  | inl ((a, mid), s) ↦ bind-Reads p f bs mid r a b (hp bs a mid s) (hf a mid b r (rw s at e))
]

read_id-IsLocal : (flag : Bool) → IsLocal (read_id flag)
unfolding read_id
read_id-IsLocal false = lift-IsLocal (ok none)
read_id-IsLocal true =
    bind-IsLocal (read 16) (λ raw. lift (ok (some (from_le raw)))) (read-IsLocal 16)
      (λ raw. lift-IsLocal (ok (some (from_le raw))))

read_code-IsLocal : {A : Type 0} (code : ℕ → Option A) → IsLocal (read_code code)
unfolding read_code
read_code-IsLocal code =
    bind-IsLocal read_byte (λ b. lift (ok_or BreakReason.bad_discriminant (code b)))
      read_byte-IsLocal (λ b. lift-IsLocal (ok_or BreakReason.bad_discriminant (code b)))

ruleset local_rules = (
  bind-IsLocal, lift-IsLocal, require-IsLocal, read_byte-IsLocal, read-IsLocal, read_id-IsLocal,
  read_code-IsLocal,
)

decode_tail-IsLocal : (head : FrameMeta × ℕ) → IsLocal (decode_tail head)
unfolding decode_tail
decode_tail-IsLocal (m, flags) = search local_rules depth 12

decode_flags-IsLocal : IsLocal decode_flags
unfolding decode_flags
decode_flags-IsLocal = search local_rules depth 14

decode_codes-IsLocal : (flags : ℕ) → IsLocal (decode_codes flags)
unfolding decode_codes
decode_codes-IsLocal flags = search local_rules depth 24 fits 5000

decode_head-IsLocal : IsLocal decode_head
unfolding decode_head
decode_head-IsLocal =
    bind-IsLocal decode_flags decode_codes decode_flags-IsLocal decode_codes-IsLocal

pub decode_body-IsLocal : IsLocal decode_body
unfolding decode_body
decode_body-IsLocal = bind-IsLocal decode_head decode_tail decode_head-IsLocal decode_tail-IsLocal
