-- ===== src/Authorization.antt =====
-- src/chitra/autonomy.py: the decision on an action, against the grants frozen with the goal.
mod Grants
mod Decisions
mod Defaults
mod Examples
use Prim.Native.String.{◌++◌ as append}
use chitra.Prelude.{
  ℕ, String, ◌==◌, Bool, true, false, not, ◌&&◌, ◌||◌, Option, none, some, List, [], ◌∷◌, ◌++◌, map,
  any, all, find, select, is_empty, is_some, if◌then◌else◌, Result, ok, err, ◌>>=◌, ◌>>◌, require,
  ltb, leb, eqb, truthy, one_of, option_eq, codes, strip, split, join, length,
}
use chitra.Digest.{Digest}
use chitra.Autonomy.{
  capability_name, Capability, Decimals, CapabilityGrant, AutonomyPolicy, CapabilityUse,
  AutonomyError, value_error,
}

pub data AuthorizationDisposition : Type 0 where
  allowed foreground_residual operator_required : AuthorizationDisposition

pub record AuthorizationDecision : Type 0 where
  pub disposition : AuthorizationDisposition
  pub policy_sha256 : String
  pub grant_ids : List String
  pub reasons : List String

-- an aware datetime with its instant, or a naive one
pub data Moment : Type 0 where
  aware naive : ℕ → Moment

-- the literals of `_grant_result`
pub data GrantOutcome : Type 0 where
  grant_allowed grant_incomplete grant_denied : GrantOutcome

is_grant_allowed : GrantOutcome → Bool
is_grant_allowed grant_allowed = true
is_grant_allowed _ = false

is_grant_incomplete : GrantOutcome → Bool
is_grant_incomplete grant_incomplete = true
is_grant_incomplete _ = false

-- what one requirement adds to the three lists
pub data Verdict : Type 0 where
  accept deny incomplete : String → Verdict

pub record Tally : Type 0 where
  pub accepted : List String
  pub denied : List String
  pub unchecked : List String

note : Verdict → Tally → Tally
note (accept x) t = record { accepted = x ∷ t.accepted; denied = t.denied; unchecked = t.unchecked }
note (deny x) t = record { accepted = t.accepted; denied = x ∷ t.denied; unchecked = t.unchecked }
note (incomplete x) t = record {
  accepted = t.accepted;
  denied = t.denied;
  unchecked = x ∷ t.unchecked;
}

same_capability : Capability → Capability → Bool
unfolding capability_name
same_capability c d = capability_name c == capability_name d

-- { dict.fromkeys(xs) }
dedupe_from : List String → List String → List String
dedupe_from seen [] = []
dedupe_from seen (x ∷ xs) =
    let kept = dedupe_from (x ∷ seen) xs in
    let dropped = dedupe_from seen xs in if one_of x seen then dropped else x ∷ kept

pub dedupe : List String → List String
unfolding dedupe_from
dedupe xs = dedupe_from [] xs

-- expires_at is not None and expires_at <= now
expired : Option ℕ → ℕ → Bool
expired none now = false
expired (some t) now = leb t now

within_units : Option ℕ → Option ℕ → GrantOutcome
within_units none units = grant_allowed
within_units (some m) none = grant_incomplete
within_units (some m) (some n) = if ltb m n then grant_denied else grant_allowed

module _ (M : Decimals) where
  within_amount :
      Option M.Decimal
      → Option String
      → Option M.Decimal
      → Option String
      → GrantOutcome
      → GrantOutcome
  within_amount none gc amount currency rest = rest
  within_amount (some m) gc none currency rest = grant_incomplete
  within_amount (some m) gc (some a) none rest = grant_incomplete
  within_amount (some m) gc (some a) (some c) rest =
      if not (option_eq (some c) gc) || M.gt a m then grant_denied else rest

-- `fnmatch.fnmatchcase(name, pattern)` and the canonical JSON of a policy are parameters.
module _ (M : Decimals) (D : Digest) (fnmatchcase : String → String → Bool)
    (canonical_json : AutonomyPolicy M → String) where
  pub autonomy_policy_sha256 : AutonomyPolicy M → String
  autonomy_policy_sha256 p = D.sha256 (canonical_json p)

  pub target_matches : CapabilityGrant M → String → Bool
  target_matches g target = any (λ pattern. fnmatchcase target pattern) g.targets

  pub grant_result : CapabilityGrant M → CapabilityUse M → ℕ → GrantOutcome
  unfolding expired target_matches within_units within_amount
  grant_result g u now =
      if expired g.expires_at now
      then grant_denied
      else if not (target_matches g u.target)
      then grant_denied
      else within_amount M g.max_amount g.currency u.amount u.currency
          (within_units g.max_units u.units)

  pub grants_for : AutonomyPolicy M → CapabilityUse M → List (CapabilityGrant M)
  unfolding same_capability
  grants_for p u = select (λ g. same_capability g.capability u.capability) p.grants

  judge_grants : List (CapabilityGrant M) → CapabilityUse M → ℕ → Verdict
  unfolding grant_result is_grant_allowed is_grant_incomplete capability_name
  judge_grants gs u now = elim (find (λ g. is_grant_allowed (grant_result g u now)) gs) [
    | some g ↦ accept g.grant_id
    | none ↦
        if any (λ g. is_grant_incomplete (grant_result g u now)) gs
        then incomplete (
            append (capability_name u.capability)
              " grant limit cannot be checked from current evidence")
        else deny (
            append "no active "
              (append (capability_name u.capability) " grant covers target and limits"))
  ]

  pub judge : AutonomyPolicy M → CapabilityUse M → ℕ → Verdict
  unfolding grants_for judge_grants capability_name
  judge p u now =
      if is_empty (grants_for p u)
      then deny (append "missing " (append (capability_name u.capability) " grant"))
      else judge_grants (grants_for p u) u now

  pub tally : AutonomyPolicy M → List (CapabilityUse M) → ℕ → Tally
  unfolding judge note
  tally p [] now = record { accepted = []; denied = []; unchecked = [] }
  tally p (u ∷ us) now = note (judge p u now) (tally p us now)

  decide : AutonomyPolicy M → Tally → AuthorizationDecision
  unfolding autonomy_policy_sha256 dedupe
  decide p t =
      if not (is_empty t.denied)
      then record {
        disposition = operator_required;
        policy_sha256 = autonomy_policy_sha256 p;
        grant_ids = dedupe t.accepted;
        reasons = dedupe t.denied;
      }
      else if not (is_empty t.unchecked)
      then record {
        disposition = foreground_residual;
        policy_sha256 = autonomy_policy_sha256 p;
        grant_ids = dedupe t.accepted;
        reasons = dedupe t.unchecked;
      }
      else record {
        disposition = allowed;
        policy_sha256 = autonomy_policy_sha256 p;
        grant_ids = dedupe t.accepted;
        reasons = [];
      }

  authorize_at :
      AutonomyPolicy M
      → List (CapabilityUse M)
      → Moment
      → Result AutonomyError AuthorizationDecision
  unfolding decide tally
  authorize_at p us (naive n) = err (value_error "authorization time must be timezone-aware")
  authorize_at p us (aware n) = ok (decide p (tally p us n))

  -- `clock` is `datetime.now(UTC)`
  pub authorize_action :
      AutonomyPolicy M
      → List (CapabilityUse M)
      → Bool
      → Bool
      → Option Moment
      → ℕ
      → Result AutonomyError AuthorizationDecision
  unfolding authorize_at autonomy_policy_sha256
  authorize_action p us evidence_complete changes_frozen_outcome now clock =
      if changes_frozen_outcome
      then ok (record {
        disposition = operator_required;
        policy_sha256 = autonomy_policy_sha256 p;
        grant_ids = [];
        reasons = "the action changes the frozen goal outcome" ∷ [];
      })
      else if not evidence_complete
      then ok (record {
        disposition = foreground_residual;
        policy_sha256 = autonomy_policy_sha256 p;
        grant_ids = [];
        reasons = "authority evidence is incomplete; investigate and replan" ∷ [];
      })
      else authorize_at p us (elim now [ none ↦ aware clock | some m ↦ m ])
