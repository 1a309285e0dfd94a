-- ===== src/Autonomy.antt =====
-- src/chitra/autonomy.py: the grants frozen with a goal.
pub mod Names
use Prim.Native.String.{◌++◌ as append}
use chitra.Prelude.{
  ℕ, String, ◌==◌, Bool, true, false, not, ◌&&◌, ◌||◌, Option, none, some, List, [], ◌∷◌, ◌++◌, map,
  any, all, find, select, is_empty, is_some, if◌then◌else◌, Result, ok, err, ◌>>=◌, ◌>>◌, require,
  ltb, leb, eqb, truthy, one_of, option_eq, codes, strip, split, join, length,
}
use chitra.Digest.{Digest}

pub data Capability : Type 0 where
  replan small_redesign dependency_change schema_change hook_change : Capability
  credential_use authentication security_change irreversible_action spend : Capability

unfoldable pub capability_name : Capability → String
capability_name replan = "replan"
capability_name small_redesign = "small_redesign"
capability_name dependency_change = "dependency_change"
capability_name schema_change = "schema_change"
capability_name hook_change = "hook_change"
capability_name credential_use = "credential_use"
capability_name authentication = "authentication"
capability_name security_change = "security_change"
capability_name irreversible_action = "irreversible_action"
capability_name spend = "spend"

pub data Initiative : Type 0 where
  aggressive steady restricted : Initiative

-- `decimal.Decimal`, finite: its tests.
pub record Decimals : Type 1 where
  pub Decimal : Type 0
  -- d > 0
  pub positive : Decimal → Bool
  -- d > e
  pub gt : Decimal → Decimal → Bool

pub record CapabilityGrant (M : Decimals) : Type 0 where
  pub grant_id : String
  pub capability : Capability
  pub targets : List String
  pub max_amount : Option M.Decimal
  pub currency : Option String
  pub max_units : Option ℕ
  pub expires_at : Option ℕ

pub record AutonomyPolicy (M : Decimals) : Type 0 where
  pub initiative : Initiative
  pub idle_pursuit_passes : ℕ
  pub loop_interval_minutes : ℕ
  pub grants : List (CapabilityGrant M)

pub record CapabilityUse (M : Decimals) : Type 0 where
  pub capability : Capability
  pub target : String
  pub amount : Option M.Decimal
  pub currency : Option String
  pub units : Option ℕ

pub data AutonomyError : Type 0 where
  -- pydantic's `ValidationError`
  validation_error : AutonomyError
  value_error : String → AutonomyError

-- len(set(xs)) == len(xs)
pub all_distinct : List String → Bool
all_distinct [] = true
all_distinct (x ∷ xs) = not (one_of x xs) && all_distinct xs

-- ^[a-z0-9][a-z0-9_.-]{0,127}$
is_lower_alnum : ℕ → Bool
is_lower_alnum c = (leb 48 c && leb c 57) || (leb 97 c && leb c 122)

id_tail : List ℕ → Bool
unfolding is_lower_alnum
id_tail cs =
    leb (length cs) 127 && all (λ c. is_lower_alnum c || eqb c 95 || eqb c 46 || eqb c 45) cs

id_codes : List ℕ → Bool
unfolding is_lower_alnum id_tail
id_codes [] = false
id_codes (c ∷ cs) = is_lower_alnum c && id_tail cs

is_grant_id : String → Bool
unfolding id_codes
is_grant_id s = id_codes (codes s)

-- ^[A-Z]{3}$
is_currency : Option String → Bool
is_currency none = true
is_currency (some s) = eqb (length (codes s)) 3 && all (λ c. leb 65 c && leb c 90) (codes s)

at_least_one : Option ℕ → Bool
at_least_one none = true
at_least_one (some n) = leb 1 n

is_spend : Capability → Bool
is_spend spend = true
is_spend _ = false

xor : Bool → Bool → Bool
xor true b = not b
xor false b = b

-- `f"default-{capability.replace('_', '-')}"`
default_id : Capability → String
unfolding split join capability_name
default_id c = append "default-" (join "-" (split 95 (capability_name c)))

module _ (M : Decimals) where
  is_amount : Option M.Decimal → Bool
  is_amount none = true
  is_amount (some d) = M.positive d

  validate_targets : CapabilityGrant M → Bool
  unfolding strip all_distinct
  validate_targets g =
      not (is_empty g.targets || any (λ t. not (truthy (strip t))) g.targets)
      && all_distinct g.targets

  validate_limits : CapabilityGrant M → Bool
  unfolding is_spend xor
  validate_limits g =
      not (xor (is_some g.max_amount) (is_some g.currency))
      && not (is_some g.max_amount && not (is_spend g.capability))

  -- CapabilityGrant(…)
  unfoldable pub capability_grant : CapabilityGrant M → Result AutonomyError (CapabilityGrant M)
  unfolding is_grant_id is_currency at_least_one is_amount validate_targets validate_limits
  capability_grant g = do
    require
        (is_grant_id g.grant_id
          && is_amount g.max_amount
          && is_currency g.currency
          && at_least_one g.max_units
          && validate_targets g)
        validation_error
    require (validate_limits g) validation_error
    ok g

  validate_amount : CapabilityUse M → Bool
  unfolding is_spend xor
  validate_amount u =
      not (xor (is_some u.amount) (is_some u.currency))
      && not (is_some u.amount && not (is_spend u.capability))

  -- CapabilityUse(…)
  pub capability_use : CapabilityUse M → Result AutonomyError (CapabilityUse M)
  unfolding is_currency at_least_one is_amount validate_amount
  capability_use u = do
    require
        (truthy u.target && is_amount u.amount && is_currency u.currency && at_least_one u.units)
        validation_error
    require (validate_amount u) validation_error
    ok u

  -- AutonomyPolicy(…)
  pub autonomy_policy : AutonomyPolicy M → Result AutonomyError (AutonomyPolicy M)
  unfolding all_distinct
  autonomy_policy p = do
    require
        (leb 1 p.idle_pursuit_passes
          && leb 1 p.loop_interval_minutes
          && leb p.loop_interval_minutes 1440)
        validation_error
    require (all_distinct (map (λ g. g.grant_id) p.grants)) validation_error
    ok p

  unfoldable pub goal_grant : Capability → CapabilityGrant M
  unfolding default_id
  goal_grant c = record {
    grant_id = default_id c;
    capability = c;
    targets = "goal" ∷ [];
    max_amount = none;
    currency = none;
    max_units = none;
    expires_at = none;
  }

  unfoldable pub default_autonomy_policy : AutonomyPolicy M
  unfolding goal_grant
  default_autonomy_policy = record {
    initiative = aggressive;
    idle_pursuit_passes = 1;
    loop_interval_minutes = 5;
    grants =
        goal_grant replan
        ∷ goal_grant small_redesign
        ∷ goal_grant dependency_change
        ∷ goal_grant schema_change
        ∷ goal_grant hook_change
        ∷ goal_grant credential_use
        ∷ goal_grant authentication
        ∷ goal_grant security_change
        ∷ goal_grant irreversible_action
        ∷ goal_grant spend
        ∷ [];
  }
