-- ===== src/LoadShed/Gates.antt =====
-- The durable two-sweep gates of `advance_load_state`.
use chitra.Prelude.{
  ℕ, ◌+◌, ◌≤◌, ◌<◌, ◌≡◌, ◌⊎◌, String, true, some, List, [], ◌∷◌, ok, arith, All, length, Bool-cases,
  inl, inr,
}
use chitra.Floats.{Floats}
use chitra.PolicyConfig.{LoadPolicy, validate_ladder}
use chitra.LoadShed.{
  PressureSample, LoadHostState, pressure_level, pressure_is_clear, initial_state,
  advance_load_state,
}
use chitra.LoadShed.Hysteresis.{clear-pressure_level}

module _ (F : Floats) (p : LoadPolicy F) where
  -- The counters stay below the gate, count only towards a change that is due, and never both.
  pub record IsGated (s : LoadHostState F) : Type 0 where
    pub level_known : s.load_level ≤ 3
    pub observed_known : s.observed_level ≤ 3
    pub breach_below : s.breach_sweeps < p.consecutive_sweeps
    pub clear_below : s.clear_sweeps < p.consecutive_sweeps
    pub breach_due : 0 < s.breach_sweeps → s.load_level < s.observed_level
    pub clear_due : 0 < s.clear_sweeps → 0 < s.load_level
    pub one_counter : (s.breach_sweeps ≡ 0) ⊎ (s.clear_sweeps ≡ 0)

  sweeps_positive : validate_ladder F p ≡ ok p → 0 < p.consecutive_sweeps
  unfolding validate_ladder
  sweeps_positive h = ground arith

  pressure_level-le : (s : PressureSample F) → pressure_level F s p ≤ 3
  unfolding pressure_level
  pressure_level-le s = ground arith

  -- A host that was never sampled starts gated.
  pub initial_state-IsGated :
      (host : String) → validate_ladder F p ≡ ok p → IsGated (initial_state F host)
  unfolding initial_state
  initial_state-IsGated host valid = ground (arith, sweeps_positive valid)

  module _ (host now : String) (s : PressureSample F) where
    -- Every sweep keeps the gate invariant, from a stored state or from none.
    pub advance-IsGated :
        (t : LoadHostState F)
        → validate_ladder F p ≡ ok p
        → IsGated t
        → IsGated (advance_load_state F (some t) host s p now)
    unfolding advance_load_state
    advance-IsGated t valid g = ground (arith, sweeps_positive valid, pressure_level-le s)

    -- The level rises only to the level just observed, and only at the last of the breaching sweeps
    -- that the gate asks for; it falls only to 0, and only at the last of the clear sweeps. On any
    -- other sweep it stays.
    pub load_level_changes :
        (t : LoadHostState F)
        → let t' = advance_load_state F (some t) host s p now in
          (t'.load_level ≡ t.load_level)
          ⊎ ((t'.load_level ≡ pressure_level F s p)
              × (t.load_level < t'.load_level)
              × ((p.consecutive_sweeps ≤ 1)
                  ⊎ ((t.observed_level ≡ t'.load_level)
                      × (p.consecutive_sweeps ≤ t.breach_sweeps + 1))))
          ⊎ ((t'.load_level ≡ 0)
              × (0 < t.load_level)
              × (pressure_is_clear F s p ≡ true)
              × (p.consecutive_sweeps ≤ t.clear_sweeps + 1))
    unfolding advance_load_state
    load_level_changes t = ground arith

-- The host's sweeps, one sample each, from its stored state.
module _ (F : Floats) (p : LoadPolicy F) (host now : String) where
  pub advance_all : LoadHostState F → List (PressureSample F) → LoadHostState F
  advance_all t [] = t
  advance_all t (s ∷ ss) = advance_all (advance_load_state F (some t) host s p now) ss

  abbrev pub Observes : ℕ → List (PressureSample F) → Type 0
  Observes level = All (λ s. pressure_level F s p ≡ level)

  -- one breaching sweep reaches the level, or adds to the count of it
  breach_step :
      (level : ℕ) (s : PressureSample F) (t : LoadHostState F)
      → pressure_level F s p ≡ level
      → t.load_level < level
      → let t' = advance_load_state F (some t) host s p now in
        (t'.load_level ≡ level)
        ⊎ ((t'.load_level ≡ t.load_level)
            × (1 ≤ t'.breach_sweeps)
            × (t.observed_level ≡ level → t'.breach_sweeps ≡ t.breach_sweeps + 1)
            × (t'.observed_level ≡ level))
  unfolding advance_load_state
  breach_step level s t h k = ground arith

  stay_step :
      (level : ℕ) (s : PressureSample F) (t : LoadHostState F)
      → validate_ladder F p ≡ ok p
      → pressure_level F s p ≡ level
      → 0 < level
      → t.load_level ≡ level
      → (advance_load_state F (some t) host s p now).load_level ≡ level
  unfolding advance_load_state
  stay_step level s t valid h k l = elim (Bool-cases (pressure_is_clear F s p)) [
    | inl c ↦ absurd (omega (arith, clear-pressure_level F p s c valid))
    | inr c ↦ ground arith
  ]

  stay :
      (level : ℕ) (ss : List (PressureSample F)) (t : LoadHostState F)
      → validate_ladder F p ≡ ok p
      → Observes level ss
      → 0 < level
      → t.load_level ≡ level
      → (advance_all t ss).load_level ≡ level
  unfolding advance_all
  stay level [] t valid h k l = l
  stay level (s ∷ ss) t valid h k l =
      stay level ss (advance_load_state F (some t) host s p now) valid h.1 k
        (stay_step level s t valid h.0 k l)

  climb :
      (level : ℕ) (ss : List (PressureSample F)) (t : LoadHostState F)
      → validate_ladder F p ≡ ok p
      → IsGated F p t
      → Observes level ss
      → t.load_level < level
      → t.observed_level ≡ level
      → p.consecutive_sweeps ≤ t.breach_sweeps + length ss
      → (advance_all t ss).load_level ≡ level
  unfolding advance_all
  climb level [] t valid g h k o n = absurd (omega (arith, g.breach_below))
  climb level (s ∷ ss) t valid g h k o n =
      let t' = advance_load_state F (some t) host s p now in
      let g' = advance-IsGated F p host now s t valid g in
      elim (breach_step level s t h.0 k) [
        | inl done ↦ stay level ss t' valid h.1 (omega arith) done
        | inr (same, _, more, seen) ↦
            climb level ss t' valid g' h.1 (omega arith) seen (omega (arith, more o))
      ]

  -- From any gated state below a pressure level, as many sweeps in a row at that level as the policy
  -- asks for, or more, end with the host at that level: a lasting breach is always acted on.
  pub sustained_breach :
      (level : ℕ) (ss : List (PressureSample F)) (t : LoadHostState F)
      → validate_ladder F p ≡ ok p
      → IsGated F p t
      → Observes level ss
      → t.load_level < level
      → p.consecutive_sweeps ≤ length ss
      → (advance_all t ss).load_level ≡ level
  unfolding advance_all
  sustained_breach level [] t valid g h k n = absurd (omega (arith, sweeps_positive F p valid))
  sustained_breach level (s ∷ ss) t valid g h k n =
      let t' = advance_load_state F (some t) host s p now in
      let g' = advance-IsGated F p host now s t valid g in
      elim (breach_step level s t h.0 k) [
        | inl done ↦ stay level ss t' valid h.1 (omega arith) done
        | inr (same, counted, _, seen) ↦
            climb level ss t' valid g' h.1 (omega arith) seen (omega arith)
      ]

  -- one clear sweep returns to rest, or adds to the count
  clear_step :
      (s : PressureSample F) (t : LoadHostState F)
      → validate_ladder F p ≡ ok p
      → pressure_is_clear F s p ≡ true
      → let t' = advance_load_state F (some t) host s p now in
        (t'.load_level ≡ 0) ⊎ ((t'.clear_sweeps ≡ t.clear_sweeps + 1) × (0 < t.load_level))
  unfolding advance_load_state
  clear_step s t valid c = ground (arith, clear-pressure_level F p s c valid)

  rest :
      (ss : List (PressureSample F)) (t : LoadHostState F)
      → validate_ladder F p ≡ ok p
      → All (λ s. pressure_is_clear F s p ≡ true) ss
      → t.load_level ≡ 0
      → (advance_all t ss).load_level ≡ 0
  unfolding advance_all
  rest [] t valid h l = l
  rest (s ∷ ss) t valid h l =
      let t' = advance_load_state F (some t) host s p now in
      rest ss t' valid h.1
        (unfold advance_load_state in ground (arith, clear-pressure_level F p s h.0 valid))

  clear_count :
      (ss : List (PressureSample F)) (t : LoadHostState F)
      → validate_ladder F p ≡ ok p
      → IsGated F p t
      → All (λ s. pressure_is_clear F s p ≡ true) ss
      → p.consecutive_sweeps ≤ t.clear_sweeps + length ss
      → (advance_all t ss).load_level ≡ 0
  unfolding advance_all
  clear_count [] t valid g h n = absurd (omega (arith, g.clear_below))
  clear_count (s ∷ ss) t valid g h n =
      let t' = advance_load_state F (some t) host s p now in
      elim (clear_step s t valid h.0) [
        | inl done ↦ rest ss t' valid h.1 done
        | inr (more, _) ↦
            clear_count ss t' valid (advance-IsGated F p host now s t valid g) h.1 (omega arith)
      ]

  -- From any gated state, as many clear sweeps in a row as the policy asks for, or more, end with the
  -- host at level 0: no host stays shed once its pressure is gone.
  pub sustained_clear :
      (ss : List (PressureSample F)) (t : LoadHostState F)
      → validate_ladder F p ≡ ok p
      → IsGated F p t
      → All (λ s. pressure_is_clear F s p ≡ true) ss
      → p.consecutive_sweeps ≤ length ss
      → (advance_all t ss).load_level ≡ 0
  sustained_clear ss t valid g h n = clear_count ss t valid g h (omega arith)
