-- ===== src/Authorization/Examples.antt =====
-- A spending limit: a use within it, one over it, and one with an unknown amount.
use chitra.Prelude.{
  ℕ, String, ◌==◌, ltb, Bool, true, false, ◌||◌, none, some, [], ◌∷◌, ok, refl, ◌≡◌,
}
use chitra.Digest.{Digest}
use chitra.Autonomy.{
  schema_change, spend, Decimals, CapabilityUse, CapabilityGrant, AutonomyPolicy, steady,
  capability_grant, default_autonomy_policy,
}
use chitra.Authorization.{AuthorizationDecision, aware, allowed, authorize_action}
use chitra.Authorization.Decisions.{IsDecision, authorize_action-IsDecision}
use chitra.Authorization.Defaults.{default_policy_allows}

abbrev whole_decimals : Decimals
whole_decimals = record { Decimal = ℕ; positive = ltb 0; gt = λ a b. ltb b a }

abbrev digest : Digest
digest = record { sha256 = λ s. s; hmac_sha256 = λ k s. s; json_quote = λ s. s }

abbrev matches : String → String → Bool
matches name pattern = name == pattern || pattern == "*"

abbrev spend_grant : CapabilityGrant whole_decimals
spend_grant = record {
  grant_id = "cloud";
  capability = spend;
  targets = "staging" ∷ [];
  max_amount = some 50;
  currency = some "USD";
  max_units = some 2;
  expires_at = some 100;
}

spend_grant_valid : capability_grant whole_decimals spend_grant ≡ ok spend_grant
unfolding capability_grant
spend_grant_valid = refl

abbrev limited : AutonomyPolicy whole_decimals
limited = record {
  initiative = steady;
  idle_pursuit_passes = 1;
  loop_interval_minutes = 5;
  grants = spend_grant ∷ [];
}

abbrev purchase : CapabilityUse whole_decimals
purchase = record {
  capability = spend;
  target = "staging";
  amount = some 40;
  currency = some "USD";
  units = some 1;
}

abbrev migration : CapabilityUse whole_decimals
migration = record {
  capability = schema_change;
  target = "goal";
  amount = none;
  currency = none;
  units = some 1;
}

abbrev canonical : AutonomyPolicy whole_decimals → String
canonical p = "policy"

authorize_action-IsDecision_example :
    (d : AuthorizationDecision) × (authorize_action whole_decimals digest matches canonical limited
        (purchase ∷ [])
        true
        false
        (some (aware 20))
        90
      ≡ ok d)
    × IsDecision whole_decimals digest matches canonical limited (purchase ∷ []) true false 20 d
authorize_action-IsDecision_example =
    authorize_action-IsDecision whole_decimals digest matches canonical limited (purchase ∷ []) true
      false (some (aware 20)) 90 20 refl

default_policy_allows_example :
    (d : AuthorizationDecision) × (authorize_action whole_decimals digest matches canonical
        (default_autonomy_policy whole_decimals)
        (migration ∷ [])
        true
        false
        none
        90
      ≡ ok d)
    × (d.disposition ≡ allowed)
default_policy_allows_example =
    default_policy_allows whole_decimals digest matches canonical (migration ∷ []) none 90 90
      (refl, tt) refl
