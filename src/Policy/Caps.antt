-- ===== src/Policy/Caps.antt =====
-- Approval tokens (crates/crustcore-policy/src/caps.rs). The seal of private fields is Rust's.
use crust_core.Prelude.{ℕ, Bool, leb}
use crust_core.Types.Word.{ApprovalId, Timestamp}

pub record AuthorizedUser : Type 0 where
  pub id : ℕ

-- `AuthorizedUser::bind`
abbrev pub bind : ℕ → AuthorizedUser
bind id = record { id = id }

-- `Approved<T>`
pub record Approved {ℓ} (A : Type ℓ) : Type ℓ where
  pub value : A
  pub approval_id : ApprovalId
  pub approved_by : AuthorizedUser
  pub expires_at : Timestamp

-- `AuthorizedUser::approve`, which calls `Approved::new`
abbrev pub approve {ℓ} : {A : Type ℓ} → AuthorizedUser → A → ApprovalId → Timestamp → Approved A
approve u v id expires = record {
  value = v;
  approval_id = id;
  approved_by = u;
  expires_at = expires;
}

-- `Approved::is_valid_at`
abbrev pub is_valid_at {ℓ} : {A : Type ℓ} → Approved A → Timestamp → Bool
is_valid_at a now = leb now a.expires_at
