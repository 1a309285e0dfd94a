-- ===== src/Authorization/Grants.antt =====
-- When a grant gives a use, and what the grants of a policy say together.
use chitra.Prelude.{
  ℕ, String, eq_iff, Bool, true, false, not, ◌&&◌, ◌||◌, Option, none, some, List, [], ◌∷◌, any,
  any-Any, Any-any, any-All, All-any, any-select, any-or, find-any, find-none, Any, All, refl, ap,
  ◌≡◌, ◌↔◌, inl, inr, ◌≤◌, ◌<◌, arith, if◌then◌else◌, Bool-cases, Option-cases, find, select,
  is_empty,
}
use chitra.Digest.{Digest}
use chitra.Autonomy.Names.{capability_name_inj}
use chitra.Autonomy.{
  Capability, capability_name, Decimals, CapabilityGrant, CapabilityUse, AutonomyPolicy,
}
use chitra.Authorization.{
  same_capability, AuthorizationDisposition, allowed, foreground_residual, operator_required,
  GrantOutcome, grant_allowed, grant_incomplete, grant_denied, is_grant_allowed,
  is_grant_incomplete, Verdict, accept, deny, incomplete, expired, target_matches, within_units,
  within_amount, grant_result, grants_for, judge_grants, judge,
}

same_capability-true : (c d : Capability) → same_capability c d ≡ true → c ≡ d
unfolding same_capability
same_capability-true c d h =
    capability_name_inj c d ((eq_iff (capability_name c) (capability_name d)).0 h)

same_capability_refl : (c d : Capability) → c ≡ d → same_capability c d ≡ true
unfolding same_capability
same_capability_refl c d h =
    (eq_iff (capability_name c) (capability_name d)).1 (ap capability_name h)

-- the time of an expiry is still to come
abbrev pub IsActive : Option ℕ → ℕ → Type 0
IsActive none now = Unit
IsActive (some t) now = now < t

-- the units are known and within the limit, if there is one
abbrev pub UnitsWithin : Option ℕ → Option ℕ → Type 0
UnitsWithin none units = Unit
UnitsWithin (some m) none = ⊥
UnitsWithin (some m) (some n) = n ≤ m

module _ (M : Decimals) where
  -- the amount is known, in the grant's currency, and within the limit, if there is one
  abbrev pub AmountWithin :
      Option M.Decimal → Option String → Option M.Decimal → Option String → Type 0
  AmountWithin none gc amount currency = Unit
  AmountWithin (some m) gc none currency = ⊥
  AmountWithin (some m) gc (some a) none = ⊥
  AmountWithin (some m) gc (some a) (some c) = (gc ≡ some c) × (M.gt a m ≡ false)

  module _ (fnmatchcase : String → String → Bool) where
    -- a grant that gives the use at the time
    pub record Covers (u : CapabilityUse M) (now : ℕ) (g : CapabilityGrant M) : Type 0 where
      pub capability : g.capability ≡ u.capability
      pub active : IsActive g.expires_at now
      pub target : any (λ pattern. fnmatchcase u.target pattern) g.targets ≡ true
      pub amount : AmountWithin g.max_amount g.currency u.amount u.currency
      pub units : UnitsWithin g.max_units u.units

expired-IsActive : (o : Option ℕ) (now : ℕ) → (expired o now ≡ false) ↔ IsActive o now
unfolding expired
expired-IsActive none now = (λ h. tt, λ h. refl)
expired-IsActive (some t) now = (λ h. ground arith, λ h. ground arith)

within_units-allowed : (m n : Option ℕ) → (within_units m n ≡ grant_allowed) ↔ UnitsWithin m n
unfolding within_units
within_units-allowed none n = (λ h. tt, λ h. refl)
within_units-allowed (some m) none = (λ h. absurd cc, λ h. absurd h)
within_units-allowed (some m) (some n) = (λ h. ground arith, λ h. ground arith)

module _ (M : Decimals) where
  within_amount-allowed :
      (m : Option M.Decimal) (gc : Option String) (a : Option M.Decimal) (c : Option String)
      (o : GrantOutcome)
      → (within_amount M m gc a c o ≡ grant_allowed)
        ↔ (AmountWithin M m gc a c × (o ≡ grant_allowed))
  unfolding within_amount
  within_amount-allowed none gc a c o = (λ h. (tt, h), λ h. h.1)
  within_amount-allowed (some m) gc none c o = (λ h. absurd cc, λ h. absurd h.0)
  within_amount-allowed (some m) gc (some a) none o = (λ h. absurd cc, λ h. absurd h.0)
  within_amount-allowed (some m) none (some a) (some c) o = (λ h. absurd cc, λ h. absurd cc)
  within_amount-allowed (some m) (some g) (some a) (some c) o =
      (λ h. ground (arith, eq_iff c g), λ h. ground (arith, eq_iff c g))

guards :
    (e t : Bool) (o : GrantOutcome)
    → ((if e then grant_denied else if not t then grant_denied else o) ≡ grant_allowed)
      ↔ ((e ≡ false) × (t ≡ true) × (o ≡ grant_allowed))
guards true t o = (λ h. absurd cc, λ h. absurd cc)
guards false true o = (λ h. (refl, refl, h), λ h. h.2)
guards false false o = (λ h. absurd cc, λ h. absurd cc)

is_grant_allowed-split :
    (s : Bool) (o : GrantOutcome)
    → (s && is_grant_allowed o) ≡ true
    → (s ≡ true) × (o ≡ grant_allowed)
unfolding is_grant_allowed
is_grant_allowed-split true grant_allowed h = (refl, refl)
is_grant_allowed-split true grant_incomplete h = absurd cc
is_grant_allowed-split true grant_denied h = absurd cc
is_grant_allowed-split false o h = absurd cc

-- the disposition that one verdict would give by itself
unfoldable pub kind : Verdict → AuthorizationDisposition
kind (accept x) = allowed
kind (deny x) = operator_required
kind (incomplete x) = foreground_residual

denied_only :
    (o : GrantOutcome) → (is_grant_allowed o || is_grant_incomplete o) ≡ false → o ≡ grant_denied
unfolding is_grant_allowed is_grant_incomplete
denied_only grant_allowed h = absurd cc
denied_only grant_incomplete h = absurd cc
denied_only grant_denied h = refl

denied_neither :
    (o : GrantOutcome) → o ≡ grant_denied → (is_grant_allowed o || is_grant_incomplete o) ≡ false
unfolding is_grant_allowed is_grant_incomplete
denied_neither o h = rw h refl

module _ (M : Decimals) (D : Digest) (fnmatchcase : String → String → Bool)
    (canonical_json : AutonomyPolicy M → String) (now : ℕ) (u : CapabilityUse M) where
  abbrev outcome : CapabilityGrant M → GrantOutcome
  outcome g = grant_result M D fnmatchcase canonical_json g u now

  -- does the grant give the use?
  gives : CapabilityGrant M → Bool
  gives g = same_capability g.capability u.capability && is_grant_allowed (outcome g)

  gives-Covers : (g : CapabilityGrant M) → gives g ≡ true → Covers M fnmatchcase u now g
  unfolding gives grant_result target_matches
  gives-Covers g h =
      let o =
        guards (expired g.expires_at now) (any (λ pattern. fnmatchcase u.target pattern) g.targets)
          (within_amount M g.max_amount g.currency u.amount u.currency
            (within_units g.max_units u.units)) in
      let both = is_grant_allowed-split (same_capability g.capability u.capability) (outcome g) h in
      let steps = o.0 both.1 in
      let rest =
        (within_amount-allowed M g.max_amount g.currency u.amount u.currency
            (within_units g.max_units u.units)).0
          steps.2 in
      record {
        capability = same_capability-true g.capability u.capability both.0;
        active = (expired-IsActive g.expires_at now).0 steps.0;
        target = steps.1;
        amount = rest.0;
        units = (within_units-allowed g.max_units u.units).0 rest.1;
      }

  Covers-gives : (g : CapabilityGrant M) → Covers M fnmatchcase u now g → gives g ≡ true
  unfolding gives grant_result target_matches is_grant_allowed
  Covers-gives g h =
      let rest =
        (within_amount-allowed M g.max_amount g.currency u.amount u.currency
            (within_units g.max_units u.units)).1
          (h.amount, (within_units-allowed g.max_units u.units).1 h.units) in
      rw (
        same_capability_refl g.capability u.capability h.capability,
        (expired-IsActive g.expires_at now).1 h.active,
        h.target,
        rest,
      )

  -- does the grant leave the use undecided?
  unsettled : CapabilityGrant M → Bool
  unsettled g = same_capability g.capability u.capability && is_grant_incomplete (outcome g)

  judge_grants-kind :
      (gs : List (CapabilityGrant M))
      → kind (judge_grants M D fnmatchcase canonical_json gs u now) ≡ (
          if any (λ g. is_grant_allowed (outcome g)) gs
          then allowed
          else if any (λ g. is_grant_incomplete (outcome g)) gs
          then foreground_residual
          else operator_required)
  unfolding judge_grants kind
  judge_grants-kind gs = elim (Option-cases (find (λ g. is_grant_allowed (outcome g)) gs)) [
    | inl n ↦
        rw (n, judge_grants, find-none (λ g. is_grant_allowed (outcome g)) gs n) (ground arith)
    | inr (g, e) ↦ rw (e, judge_grants, find-any (λ g. is_grant_allowed (outcome g)) gs e) refl
  ]

  absent-kind :
      (x : String) (gs : List (CapabilityGrant M))
      → kind (if is_empty gs then deny x else judge_grants M D fnmatchcase canonical_json gs u now)
        ≡ (if any (λ g. is_grant_allowed (outcome g)) gs
            then allowed
            else if any (λ g. is_grant_incomplete (outcome g)) gs
            then foreground_residual
            else operator_required)
  unfolding kind
  absent-kind x [] = refl
  absent-kind x (g ∷ gs) = judge_grants-kind (g ∷ gs)

  judge-kind :
      (p : AutonomyPolicy M)
      → kind (judge M D fnmatchcase canonical_json p u now) ≡ (
          if any gives p.grants
          then allowed
          else if any unsettled p.grants
          then foreground_residual
          else operator_required)
  unfolding judge grants_for gives unsettled
  judge-kind p =
      let same : CapabilityGrant M → Bool = (λ g. same_capability g.capability u.capability) in
      rw
        (
          ← any-select (λ g. is_grant_allowed (outcome g)) same p.grants,
          ← any-select (λ g. is_grant_incomplete (outcome g)) same p.grants,
        )
        (absent-kind _ (select same p.grants))

  -- Some grant of the policy gives the use.
  abbrev pub IsGranted : AutonomyPolicy M → Type 0
  IsGranted p = Any (Covers M fnmatchcase u now) p.grants

  -- Every grant of the capability is expired, aimed elsewhere, or over its limits.
  abbrev pub IsRefused : AutonomyPolicy M → Type 0
  IsRefused p = All (λ g. g.capability ≡ u.capability → outcome g ≡ grant_denied) p.grants

  pub judge-IsGranted :
      (p : AutonomyPolicy M)
      → (kind (judge M D fnmatchcase canonical_json p u now) ≡ allowed) ↔ IsGranted p
  judge-IsGranted p = rw (judge-kind p) (
    λ h. any-Any (Covers M fnmatchcase u now) gives p.grants gives-Covers (ground (arith, h)),
    λ h. rw (Any-any (Covers M fnmatchcase u now) gives p.grants Covers-gives h) refl,
  )

  denied_of :
      (g : CapabilityGrant M)
      → (gives g || unsettled g) ≡ false
      → g.capability ≡ u.capability
      → outcome g ≡ grant_denied
  unfolding gives unsettled
  denied_of g h k =
      denied_only (outcome g) (rw (same_capability_refl g.capability u.capability k) at h)

  denied_neither_of :
      (g : CapabilityGrant M)
      → (g.capability ≡ u.capability → outcome g ≡ grant_denied)
      → (gives g || unsettled g) ≡ false
  unfolding gives unsettled
  denied_neither_of g h = elim (Bool-cases (same_capability g.capability u.capability)) [
    | inl e ↦
        rw e (denied_neither (outcome g) (h (same_capability-true g.capability u.capability e)))
    | inr e ↦ rw e refl
  ]

  pub judge-IsRefused :
      (p : AutonomyPolicy M)
      → (kind (judge M D fnmatchcase canonical_json p u now) ≡ operator_required) ↔ IsRefused p
  judge-IsRefused p =
      let Denied : CapabilityGrant M → Type 0 =
        λ g. g.capability ≡ u.capability → outcome g ≡ grant_denied in
      let either : CapabilityGrant M → Bool = λ g. gives g || unsettled g in
      rw (judge-kind p) (
        λ h.
            any-All Denied either p.grants denied_of
              (ground (arith, h, any-or unsettled gives p.grants)),
        λ h. ground (
          arith,
          any-or unsettled gives p.grants,
          All-any Denied either p.grants denied_neither_of h,
        ),
      )
