-- ===== src/Flow/State.antt =====
-- The typed state of a flow (`FlowState` of crates/crustcore-flow/src/graph.rs) and its predicates
-- and untrusted text (predicate.rs). Text that is compared or measured is a list of bytes, and a
-- `BTreeMap` of which only `get` and `insert` are used is a function.
use crust_core.Prelude.{
  ℕ, zero, suc, ltb, leb, if◌then◌else◌, is_some, Bool, true, false, not, ◌&&◌, ◌||◌, Option, none,
  some, List, [], ◌∷◌, ◌++◌, length, take, get_elem?,
}
pub use crust_core.Prelude.Text.{Text}
use crust_core.Prelude.Text.{text_eq}
use crust_core.Policy.Caps.{Approved, is_valid_at}

-- `i64`
pub data ℤ : Type 0 where
  pos : ℕ → ℤ
  negsuc : ℕ → ℤ

-- `a >= b` on `i64`
abbrev pub at_least : ℤ → ℤ → Bool
at_least (ℤ.pos a) (ℤ.pos b) = leb b a
at_least (ℤ.pos a) (ℤ.negsuc b) = true
at_least (ℤ.negsuc a) (ℤ.pos b) = false
at_least (ℤ.negsuc a) (ℤ.negsuc b) = leb a b

-- `BTreeMap<String, V>`
abbrev pub Map : Type 0 → Type 0
Map V = Text → Option V

abbrev pub insert : {V : Type 0} → Text → V → Map V → Map V
insert key v m = λ k. if text_eq k key then some v else m k

abbrev pub get_or : {V : Type 0} → V → Option V → V
get_or d none = d
get_or d (some v) = v

pub record FlowState : Type 0 where
  pub outputs : Map Text
  pub flags : Map Bool
  pub counters : Map ℤ
  pub approvals : List (Approved (Unit {0}))

-- `FlowState::new`
abbrev pub new_state : FlowState
new_state = record { outputs = λ k. none; flags = λ k. none; counters = λ k. none; approvals = [] }

-- `FlowState::set_output`
abbrev pub set_output : Text → Text → FlowState → FlowState
set_output key v st = record st { outputs = insert key v st.outputs }

-- `FlowState::output`
abbrev pub output : Text → FlowState → Option Text
output key st = st.outputs key

-- `FlowState::set_flag`
abbrev pub set_flag : Text → Bool → FlowState → FlowState
set_flag key v st = record st { flags = insert key v st.flags }

-- `FlowState::flag`
abbrev pub flag : Text → FlowState → Bool
flag key st = get_or false (st.flags key)

-- `FlowState::set_counter`
abbrev pub set_counter : Text → ℤ → FlowState → FlowState
set_counter key v st = record st { counters = insert key v st.counters }

-- `FlowState::counter`
abbrev pub counter : Text → FlowState → ℤ
counter key st = get_or (ℤ.pos 0) (st.counters key)

-- `FlowState::add_approval`
abbrev pub add_approval : Approved (Unit {0}) → FlowState → FlowState
add_approval a st = record st { approvals = st.approvals ++ a ∷ [] }

unfoldable pub any_valid : ℕ → List (Approved (Unit {0})) → Bool
any_valid now [] = false
any_valid now (a ∷ rest) = is_valid_at a now || any_valid now rest

-- `FlowState::has_valid_approval`
abbrev pub has_valid_approval : ℕ → FlowState → Bool
has_valid_approval now st = any_valid now st.approvals

pub data Predicate : Type 0 where
  flagged : Text → Predicate
  counter_at_least : Text → ℤ → Predicate
  output_present : Text → Predicate
  negation : Predicate → Predicate
  conjunction disjunction : Predicate → Predicate → Predicate
  always : Bool → Predicate

-- `Predicate::eval`
unfoldable pub eval : Predicate → FlowState → Bool
eval (Predicate.flagged key) st = flag key st
eval (Predicate.counter_at_least key low) st = at_least (counter key st) low
eval (Predicate.output_present key) st = is_some (output key st)
eval (Predicate.negation p) st = not (eval p st)
eval (Predicate.conjunction p q) st = eval p st && eval q st
eval (Predicate.disjunction p q) st = eval p st || eval q st
eval (Predicate.always v) st = v

-- `MAX_OUTPUT_BYTES`
abbrev pub max_output_bytes : ℕ
max_output_bytes = 8192

-- The byte at the index is not the continuation of a character (`str::is_char_boundary` at an
-- index that is not 0).
abbrev starts_char : Option ℕ → Bool
starts_char none = false
starts_char (some b) = ltb b 128 || leb 192 b

-- The loop of `declassify`, which takes off bytes down to a boundary.
unfoldable pub boundary : Text → ℕ → ℕ
boundary s zero = zero
boundary s (suc n) = elim (starts_char (get_elem? s (suc n))) [
  | true ↦ suc n
  | false ↦ boundary s n
]

-- The bounding of `declassify`.
unfoldable pub bounded_text : Text → Text
bounded_text s = if leb (length s) max_output_bytes then s else take (boundary s max_output_bytes) s

-- `declassify`, over the redaction of crates/crustcore-secrets
abbrev pub declassify : (Text → Text) → Text → Text
declassify redact raw = bounded_text (redact raw)
