-- ===== src/Authorization/Decisions.antt =====
-- When an action is allowed, and when it goes to a person.
use chitra.Prelude.{
  ℕ, String, Bool, true, false, Option, none, some, List, [], ◌∷◌, Any, All, ok, refl, ap, ◌≡◌, ◌↔◌,
  ◌⊎◌, inl, inr, arith,
}
use chitra.Digest.{Digest}
use chitra.Autonomy.{Decimals, CapabilityUse, AutonomyPolicy}
use chitra.Authorization.{
  AuthorizationDisposition, allowed, foreground_residual, operator_required, AuthorizationDecision,
  Moment, aware, naive, Verdict, accept, deny, incomplete, Tally, note, judge, tally, decide,
  authorize_at, authorize_action,
}
use chitra.Authorization.Grants.{kind, IsGranted, IsRefused, judge-IsGranted, judge-IsRefused}

-- the graver of two dispositions
graver : AuthorizationDisposition → AuthorizationDisposition → AuthorizationDisposition
graver operator_required d = operator_required
graver allowed d = d
graver foreground_residual operator_required = operator_required
graver foreground_residual _ = foreground_residual

graver-allowed :
    (c d : AuthorizationDisposition) → (graver c d ≡ allowed) ↔ ((c ≡ allowed) × (d ≡ allowed))
unfolding graver
graver-allowed operator_required d = (λ h. absurd cc, λ h. absurd cc)
graver-allowed allowed d = (λ h. (refl, h), λ h. h.1)
graver-allowed foreground_residual operator_required = (λ h. absurd cc, λ h. absurd cc)
graver-allowed foreground_residual allowed = (λ h. absurd cc, λ h. absurd cc)
graver-allowed foreground_residual foreground_residual = (λ h. absurd cc, λ h. absurd cc)

graver-required :
    (c d : AuthorizationDisposition)
    → (graver c d ≡ operator_required) ↔ ((c ≡ operator_required) ⊎ (d ≡ operator_required))
unfolding graver
graver-required operator_required d = (λ h. inl refl, λ h. refl)
graver-required allowed d = (λ h. inr h, λ h. elim h [ inl e ↦ absurd cc | inr e ↦ e ])
graver-required foreground_residual operator_required = (λ h. inr refl, λ h. refl)
graver-required foreground_residual allowed =
    (λ h. absurd cc, λ h. elim h [ inl e ↦ absurd cc | inr e ↦ absurd cc ])
graver-required foreground_residual foreground_residual =
    (λ h. absurd cc, λ h. elim h [ inl e ↦ absurd cc | inr e ↦ absurd cc ])

module _ (M : Decimals) (D : Digest) (fnmatchcase : String → String → Bool)
    (canonical_json : AutonomyPolicy M → String) (p : AutonomyPolicy M) where
  concluded : Tally → AuthorizationDisposition
  concluded t = (decide M D fnmatchcase canonical_json p t).disposition

  concluded-note : (v : Verdict) (t : Tally) → concluded (note v t) ≡ graver (kind v) (concluded t)
  unfolding concluded decide note graver kind
  concluded-note (accept x) t = ground arith
  concluded-note (deny x) t = ground arith
  concluded-note (incomplete x) t = ground arith

  none_refused :
      {A : Type 0}
      → concluded (record { accepted = []; denied = []; unchecked = [] }) ≡ operator_required
      → A
  unfolding concluded decide
  none_refused h = absurd cc

  module _ (now : ℕ) where
    granted :
        (us : List (CapabilityUse M))
        → (concluded (tally M D fnmatchcase canonical_json p us now) ≡ allowed)
          ↔ All (λ u. IsGranted M D fnmatchcase canonical_json now u p) us
    unfolding tally
    granted [] = (λ h. tt, λ h. unfold concluded decide in refl)
    granted (u ∷ us) =
        let v = judge M D fnmatchcase canonical_json p u now in
        let t = tally M D fnmatchcase canonical_json p us now in
        let step = graver-allowed (kind v) (concluded t) in
        let one = judge-IsGranted M D fnmatchcase canonical_json now u p in
        let rest = granted us in
        rw (concluded-note v t)
          (λ h. (one.0 (step.0 h).0, rest.0 (step.0 h).1), λ h. step.1 (one.1 h.0, rest.1 h.1))

    refused :
        (us : List (CapabilityUse M))
        → (concluded (tally M D fnmatchcase canonical_json p us now) ≡ operator_required)
          ↔ Any (λ u. IsRefused M D fnmatchcase canonical_json now u p) us
    unfolding tally
    refused [] = (λ h. none_refused h, λ h. absurd h)
    refused (u ∷ us) =
        let v = judge M D fnmatchcase canonical_json p u now in
        let t = tally M D fnmatchcase canonical_json p us now in
        let step = graver-required (kind v) (concluded t) in
        let one = judge-IsRefused M D fnmatchcase canonical_json now u p in
        let rest = refused us in
        rw (concluded-note v t) (
          λ h. elim (step.0 h) [ inl e ↦ inl (one.0 e) | inr e ↦ inr (rest.0 e) ],
          λ h. step.1 (elim h [ inl e ↦ inl (one.1 e) | inr e ↦ inr (rest.1 e) ]),
        )

instant_inj : {m n : ℕ} → some m ≡ some n → m ≡ n
instant_inj h = cc

-- the instant that an authorization decides at
abbrev pub instant : Option Moment → ℕ → Option ℕ
instant none clock = some clock
instant (some (aware n)) clock = some n
instant (some (naive n)) clock = none

module _ (M : Decimals) (D : Digest) (fnmatchcase : String → String → Bool)
    (canonical_json : AutonomyPolicy M → String) (p : AutonomyPolicy M)
    (us : List (CapabilityUse M)) where
  -- The decision for the outcome, the evidence and the instant, as one condition for each disposition.
  pub record IsDecision (evidence changes : Bool) (now : ℕ) (d : AuthorizationDecision)
      : Type 0 where
    pub allows : (d.disposition ≡ allowed) ↔ (
        (changes ≡ false)
        × (evidence ≡ true)
        × All (λ u. IsGranted M D fnmatchcase canonical_json now u p) us)
    pub requires_operator : (d.disposition ≡ operator_required) ↔ (
        (changes ≡ true)
        ⊎ ((evidence ≡ true) × Any (λ u. IsRefused M D fnmatchcase canonical_json now u p) us))

  authorize_at-IsDecision :
      (now : ℕ)
      → IsDecision true false now
          (decide M D fnmatchcase canonical_json p (tally M D fnmatchcase canonical_json p us now))
  unfolding concluded
  authorize_at-IsDecision now =
      let g = granted M D fnmatchcase canonical_json p now us in
      let r = refused M D fnmatchcase canonical_json p now us in
      record {
        allows = (λ h. (refl, refl, g.0 h), λ h. g.1 h.2);
        requires_operator =
            (λ h. inr (refl, r.0 h), λ h. elim h [ inl e ↦ absurd cc | inr e ↦ r.1 e.1 ]);
      }

  authorize_at_aware :
      (m : Moment) (now : ℕ)
      → m ≡ aware now
      → (d : AuthorizationDecision) × (authorize_at M D fnmatchcase canonical_json p us m ≡ ok d)
        × IsDecision true false now d
  unfolding authorize_at
  authorize_at_aware m now h = rw h (_, refl, authorize_at-IsDecision now)

  -- With an aware time, or none (the clock's then), an authorization returns a decision. It allows
  -- the action if and only if the frozen outcome stays, the evidence is complete, and every requirement
  -- has a grant of its capability that is not expired, matches the target, and whose limits on the
  -- amount and the units are met by known values. It asks for a person if and only if the outcome
  -- changes, or the evidence is complete and for some requirement every grant of the capability
  -- denies it: what cannot be checked is not sent to a person.
  pub authorize_action-IsDecision :
      (evidence changes : Bool) (at : Option Moment) (clock now : ℕ)
      → instant at clock ≡ some now
      → (d : AuthorizationDecision) × (authorize_action M D fnmatchcase canonical_json p us evidence
            changes at clock
          ≡ ok d)
        × IsDecision evidence changes now d
  unfolding authorize_action
  authorize_action-IsDecision evidence true at clock now h = (
    _,
    refl,
    record {
      allows = (λ e. absurd cc, λ e. absurd cc);
      requires_operator = (λ e. inl refl, λ e. refl);
    },
  )
  authorize_action-IsDecision false false at clock now h = (
    _,
    refl,
    record {
      allows = (λ e. absurd cc, λ e. absurd cc);
      requires_operator = (λ e. absurd cc, λ e. elim e [ inl y ↦ absurd cc | inr y ↦ absurd cc ]);
    },
  )
  authorize_action-IsDecision true false none clock now h =
      authorize_at_aware (aware clock) now (ap aware (instant_inj h))
  authorize_action-IsDecision true false (some (aware n)) clock now h =
      authorize_at_aware (aware n) now (ap aware (instant_inj h))
  authorize_action-IsDecision true false (some (naive n)) clock now h = absurd cc
