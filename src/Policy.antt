-- ===== src/Policy.antt =====
-- Policy decisions (crates/crustcore-policy/src/decision.rs) and the capability issuer of caps.rs.
pub mod Caps
use Prim.Native.String.{String}
use crust_core.Prelude.{ℕ, ◌⊎◌, inl, inr, if◌then◌else◌}
use crust_core.Types.Status.{Reversibility, requires_approval}

pub data RiskProfile : Type 0 where
  read_only supervised full : RiskProfile

pub data PolicyDecision : Type 0 where
  allow : PolicyDecision
  deny : String → PolicyDecision
  require_approval : String → PolicyDecision

pub record PolicySnapshot : Type 0 where
  pub profile : RiskProfile

-- `PolicySnapshot::classify`, on the profile that it matches
unfoldable pub classify_profile : RiskProfile → Reversibility → PolicyDecision
classify_profile read_only r = deny "read-only profile forbids side effects"
classify_profile _ r =
    if requires_approval r
    then require_approval "irreversible action requires an approval token"
    else allow

-- `PolicySnapshot::classify`
unfoldable pub classify : PolicySnapshot → Reversibility → PolicyDecision
unfolding classify_profile
classify p r = classify_profile p.profile r

pub record CapabilityIssuer : Type 0 where
  pub scope : ℕ

abbrev issue : PolicyDecision → ℕ → CapabilityIssuer ⊎ PolicyDecision
issue allow scope = inl (record { scope = scope })
issue other scope = inr other

-- `PolicySnapshot::authorize_reversible`: `inl` is `Ok`, `inr` is `Err`
unfoldable pub authorize_reversible : PolicySnapshot → ℕ → CapabilityIssuer ⊎ PolicyDecision
unfolding classify
authorize_reversible p scope = issue (classify p Reversibility.reversible) scope
