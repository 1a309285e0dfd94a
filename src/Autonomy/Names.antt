-- ===== src/Autonomy/Names.antt =====
-- The names tell the capabilities apart.
use chitra.Prelude.{String, ◌==◌, Option, none, some, refl, ap, sym, ◌∙◌, ◌≡◌, if◌then◌else◌}
use chitra.Autonomy.{
  Capability, replan, small_redesign, dependency_change, schema_change, hook_change, credential_use,
  authentication, security_change, irreversible_action, spend, capability_name,
}

capability_of : String → Option Capability
capability_of s =
    if s == "replan"
    then some replan
    else if s == "small_redesign"
    then some small_redesign
    else if s == "dependency_change"
    then some dependency_change
    else if s == "schema_change"
    then some schema_change
    else if s == "hook_change"
    then some hook_change
    else if s == "credential_use"
    then some credential_use
    else if s == "authentication"
    then some authentication
    else if s == "security_change"
    then some security_change
    else if s == "irreversible_action"
    then some irreversible_action
    else if s == "spend"
    then some spend
    else none

capability_of-capability_name : (c : Capability) → capability_of (capability_name c) ≡ some c
unfolding capability_of capability_name
capability_of-capability_name replan = refl
capability_of-capability_name small_redesign = refl
capability_of-capability_name dependency_change = refl
capability_of-capability_name schema_change = refl
capability_of-capability_name hook_change = refl
capability_of-capability_name credential_use = refl
capability_of-capability_name authentication = refl
capability_of-capability_name security_change = refl
capability_of-capability_name irreversible_action = refl
capability_of-capability_name spend = refl

some_inj : {c d : Capability} → some c ≡ some d → c ≡ d
some_inj h = cc

pub capability_name_inj : (c d : Capability) → capability_name c ≡ capability_name d → c ≡ d
capability_name_inj c d h =
    some_inj
      (sym (capability_of-capability_name c) ∙ ap capability_of h ∙ capability_of-capability_name d)
