-- ===== src/Authorization/Defaults.antt =====
-- The policy of records that name none.
use chitra.Prelude.{
  ℕ, String, Bool, true, false, List, [], ◌∷◌, All, Any, ok, refl, sym, subst, ◌≡◌, inl, inr,
  Option, some,
}
use chitra.Digest.{Digest}
use chitra.Autonomy.{
  Capability, replan, small_redesign, dependency_change, schema_change, hook_change, credential_use,
  authentication, security_change, irreversible_action, spend, Decimals, CapabilityUse,
  AutonomyPolicy, goal_grant, default_autonomy_policy,
}
use chitra.Authorization.{AuthorizationDecision, Moment, allowed, authorize_action}
use chitra.Authorization.Grants.{Covers, IsGranted}
use chitra.Authorization.Decisions.{instant, authorize_action-IsDecision}

module _ (M : Decimals) where
  -- the default policy has the plain grant of each capability
  default-goal_grant :
      (c : Capability) → Any (λ g. g ≡ goal_grant M c) (default_autonomy_policy M).grants
  unfolding default_autonomy_policy
  default-goal_grant replan = inl refl
  default-goal_grant small_redesign = inr (inl refl)
  default-goal_grant dependency_change = inr (inr (inl refl))
  default-goal_grant schema_change = inr (inr (inr (inl refl)))
  default-goal_grant hook_change = inr (inr (inr (inr (inl refl))))
  default-goal_grant credential_use = inr (inr (inr (inr (inr (inl refl)))))
  default-goal_grant authentication = inr (inr (inr (inr (inr (inr (inl refl))))))
  default-goal_grant security_change = inr (inr (inr (inr (inr (inr (inr (inl refl)))))))
  default-goal_grant irreversible_action = inr (inr (inr (inr (inr (inr (inr (inr (inl refl))))))))
  default-goal_grant spend = inr (inr (inr (inr (inr (inr (inr (inr (inr (inl refl)))))))))

weaken_Any :
    {A : Type 0} (P Q : A → Type 0) (xs : List A) → ((x : A) → P x → Q x) → Any P xs → Any Q xs
weaken_Any P Q [] h k = k
weaken_Any P Q (x ∷ xs) h (inl y) = inl (h x y)
weaken_Any P Q (x ∷ xs) h (inr i) = inr (weaken_Any P Q xs h i)

module _ (M : Decimals) (D : Digest) (fnmatchcase : String → String → Bool)
    (canonical_json : AutonomyPolicy M → String) where
  goal_grant-Covers :
      (u : CapabilityUse M) (now : ℕ)
      → fnmatchcase u.target "goal" ≡ true
      → Covers M fnmatchcase u now (goal_grant M u.capability)
  unfolding goal_grant
  goal_grant-Covers u now h = record {
    capability = refl;
    active = tt;
    target = rw h refl;
    amount = tt;
    units = tt;
  }

  all-IsGranted :
      (now : ℕ) (us : List (CapabilityUse M))
      → All (λ u. fnmatchcase u.target "goal" ≡ true) us
      → All (λ u. IsGranted M D fnmatchcase canonical_json now u (default_autonomy_policy M)) us
  all-IsGranted now [] h = tt
  all-IsGranted now (u ∷ us) h = (
    weaken_Any (λ g. g ≡ goal_grant M u.capability) (Covers M fnmatchcase u now)
        (default_autonomy_policy M).grants
        (λ g e. subst (Covers M fnmatchcase u now) (sym e) (goal_grant-Covers u now h.0))
        (default-goal_grant M u.capability),
    all-IsGranted now us h.1,
  )

  -- Under the default policy, with complete evidence and the outcome kept, every list of uses on
  -- targets that match `goal` is allowed, whatever the capabilities, amounts and units, at any time.
  pub default_policy_allows :
      (us : List (CapabilityUse M)) (at : Option Moment) (clock now : ℕ)
      → All (λ u. fnmatchcase u.target "goal" ≡ true) us
      → instant at clock ≡ some now
      → (d : AuthorizationDecision) × (authorize_action M D fnmatchcase canonical_json
            (default_autonomy_policy M)
            us
            true
            false
            at
            clock
          ≡ ok d)
        × (d.disposition ≡ allowed)
  default_policy_allows us at clock now h k =
      let (d, e, i) =
        authorize_action-IsDecision M D fnmatchcase canonical_json (default_autonomy_policy M) us
          true false at clock now k in
      (d, e, i.allows.1 (refl, refl, all-IsGranted now us h))
