-- ===== src/LoadShed.antt =====
-- src/chitra/load_shed.py: the pressure ladder of one host, the two-sweep gates, the running caps and
-- the order in which lanes are shed. The host's facts (a sample, the activity and registry records)
-- are arguments; reading /proc and sysctl is not modelled.
pub mod Hysteresis
pub mod Gates
pub mod Caps
mod Examples
use Prim.Native.String.{compare}
use Prim.Native.Nat.{Ordering}
use chitra.Prelude.{
  ℕ, ◌+◌, min, String, Bool, true, false, not, ◌&&◌, ◌||◌, Option, none, some, List, [], ◌∷◌, ◌==◌,
  find, reverse, ltb, leb, eqb, if◌then◌else◌, Result, ok, err, truthy,
}
use chitra.Prelude.Sort.{sorted}
use chitra.Floats.{Floats}
use chitra.PolicyConfig.{PausePolicy, LoadPolicy, UsagePolicy}

pub record PressureSample (F : Floats) : Type 0 where
  pub mem_available_pct : F.Float
  pub memory_some_avg60 : F.Float
  pub memory_full_avg60 : F.Float
  pub cpu_some_avg60 : F.Float

-- src/chitra/rate_limit_state.py: the durable state of one host
pub record LoadHostState (F : Floats) : Type 0 where
  pub host : String
  pub observed_level : ℕ
  pub breach_sweeps : ℕ
  pub clear_sweeps : ℕ
  pub load_level : ℕ
  pub mem_available_pct : F.Float
  pub memory_some_avg60 : F.Float
  pub memory_full_avg60 : F.Float
  pub cpu_some_avg60 : F.Float
  pub shed_lanes : List String
  pub updated_at : String

module _ (F : Floats) where
  open F use {Float, zero_float, hundred, lt, le}

  pub pressure_level : PressureSample F → LoadPolicy F → ℕ
  pressure_level s p =
      if lt s.mem_available_pct p.l3_mem_available_pct
        || lt p.l3_memory_full_avg60 s.memory_full_avg60
      then 3
      else if lt s.mem_available_pct p.l2_mem_available_pct
          || lt p.l2_memory_some_avg60 s.memory_some_avg60
      then 2
      else if lt s.mem_available_pct p.l1_mem_available_pct
          || lt p.l1_memory_some_avg60 s.memory_some_avg60
          || lt p.l1_cpu_some_avg60 s.cpu_some_avg60
      then 1
      else 0

  pub pressure_is_clear : PressureSample F → LoadPolicy F → Bool
  pressure_is_clear s p =
      lt p.clear_mem_available_pct s.mem_available_pct
      && lt s.memory_some_avg60 p.clear_memory_some_avg60
      && le s.memory_full_avg60 p.l3_memory_full_avg60
      && le s.cpu_some_avg60 p.l1_cpu_some_avg60

  -- `LoadHostState(host=host)`
  pub initial_state : String → LoadHostState F
  initial_state host = record {
    host = host;
    observed_level = 0;
    breach_sweeps = 0;
    clear_sweeps = 0;
    load_level = 0;
    mem_available_pct = hundred;
    memory_some_avg60 = zero_float;
    memory_full_avg60 = zero_float;
    cpu_some_avg60 = zero_float;
    shed_lanes = [];
    updated_at = "";
  }

  -- `previous or LoadHostState(host=host)`
  prior_state : Option (LoadHostState F) → String → LoadHostState F
  prior_state none host = initial_state host
  prior_state (some s) host = s

  -- The gates: the new breach count, clear count and level.
  gates : LoadHostState F → ℕ → Bool → ℕ → ℕ × ℕ × ℕ
  gates prior observed clear sweeps =
      if ltb prior.load_level observed
      then (let breach = if eqb prior.observed_level observed then prior.breach_sweeps + 1 else 1 in
          if leb sweeps breach then (0, 0, observed) else (breach, 0, prior.load_level))
      else if ltb 0 prior.load_level && clear
      then (let cleared = prior.clear_sweeps + 1 in
          if leb sweeps cleared then (0, 0, 0) else (0, cleared, prior.load_level))
      else (0, 0, prior.load_level)

  pub advance_load_state :
      Option (LoadHostState F) → String → PressureSample F → LoadPolicy F → String → LoadHostState F
  unfolding prior_state gates
  advance_load_state previous host s p now =
      let prior = prior_state previous host in
      let observed = pressure_level s p in
      let g = gates prior observed (pressure_is_clear s p) p.consecutive_sweeps in
      record prior {
        observed_level = observed;
        breach_sweeps = g.0;
        clear_sweeps = g.1;
        load_level = g.2;
        mem_available_pct = s.mem_available_pct;
        memory_some_avg60 = s.memory_some_avg60;
        memory_full_avg60 = s.memory_full_avg60;
        cpu_some_avg60 = s.cpu_some_avg60;
        updated_at = now;
      }

  -- The dictionary of caps by level; `none` is its KeyError.
  level_cap : LoadPolicy F → ℕ → Option ℕ
  level_cap p level =
      if eqb level 0
      then some p.baseline_max_running
      else if eqb level 1
      then some p.l1_max_running
      else if eqb level 2
      then some p.l2_max_running
      else if eqb level 3
      then some p.l3_max_running
      else none

  pub baseline : UsagePolicy → LoadPolicy F → ℕ
  baseline u p = elim u.max_running [ none ↦ p.baseline_max_running | some n ↦ n ]

  cap_by : ℕ → Option ℕ → Option ℕ
  cap_by n none = none
  cap_by n (some cap) = some (min n cap)

  pub effective_max_running : UsagePolicy → LoadPolicy F → ℕ → Option ℕ
  unfolding level_cap baseline cap_by
  effective_max_running u p level = cap_by (baseline u p) (level_cap p level)

  pub pause_policy_for_load : PausePolicy → LoadPolicy F → ℕ → PausePolicy
  pause_policy_for_load base p level = if eqb level 3 then p.l3_pause else base
