-- ===== src/LoadShed/Examples.antt =====
-- Instances of the load-shedding theorems, at the default policy over whole-number readings.
use chitra.Prelude.{◌+◌, ◌<◌, ◌⊎◌, ◌≡◌, ◌≤◌, refl, true, some, [], ◌∷◌, ok, arith}
use chitra.Floats.{whole_floats}
use chitra.PolicyConfig.{PausePolicy, LoadPolicy, UsagePolicy, validate_ladder, validate_bounds}
use chitra.LoadShed.{
  PressureSample, LoadHostState, pressure_level, pressure_is_clear, initial_state,
  advance_load_state, pause_policy_for_load,
}
use chitra.LoadShed.Hysteresis.{clear-pressure_level}
use chitra.LoadShed.Gates.{
  IsGated, initial_state-IsGated, advance-IsGated, load_level_changes, advance_all,
  sustained_breach, sustained_clear,
}

abbrev l3_pause : PausePolicy
l3_pause = record {
  checkpoint_deadline_seconds = 60;
  stop_deadline_seconds = 60;
  quiescence_quiet_seconds = 15;
  quiescence_timeout_seconds = 300;
  resume_deadline_seconds = 60;
  max_retry_attempts = 3;
}

abbrev policy : LoadPolicy whole_floats
policy = record {
  baseline_max_running = 8;
  l1_max_running = 6;
  l2_max_running = 4;
  l3_max_running = 2;
  l1_mem_available_pct = 25;
  l2_mem_available_pct = 15;
  l3_mem_available_pct = 8;
  l1_memory_some_avg60 = 10;
  l2_memory_some_avg60 = 25;
  l3_memory_full_avg60 = 10;
  l1_cpu_some_avg60 = 60;
  clear_mem_available_pct = 30;
  clear_memory_some_avg60 = 5;
  consecutive_sweeps = 2;
  l3_pause = l3_pause;
}

abbrev tight : PressureSample whole_floats
tight = record {
  mem_available_pct = 10;
  memory_some_avg60 = 0;
  memory_full_avg60 = 0;
  cpu_some_avg60 = 0;
}

abbrev calm : PressureSample whole_floats
calm = record {
  mem_available_pct = 60;
  memory_some_avg60 = 1;
  memory_full_avg60 = 0;
  cpu_some_avg60 = 5;
}

policy_valid : validate_ladder whole_floats policy ≡ ok policy
unfolding validate_ladder
policy_valid = refl

l3_pause_valid : validate_bounds l3_pause ≡ ok l3_pause
unfolding validate_bounds
l3_pause_valid = refl

calm_clear : pressure_is_clear whole_floats calm policy ≡ true
unfolding pressure_is_clear
calm_clear = refl

tight_level : pressure_level whole_floats tight policy ≡ 2
unfolding pressure_level
tight_level = refl

deep_pause : pause_policy_for_load whole_floats l3_pause policy 3 ≡ l3_pause
unfolding pause_policy_for_load
deep_pause = refl

clear-pressure_level_example : pressure_level whole_floats calm policy ≡ 0
clear-pressure_level_example = clear-pressure_level whole_floats policy calm calm_clear policy_valid

abbrev fresh : LoadHostState whole_floats
fresh = initial_state whole_floats "h"

fresh-IsGated : IsGated whole_floats policy fresh
fresh-IsGated = initial_state-IsGated whole_floats policy "h" policy_valid

advance-IsGated_example :
    IsGated whole_floats policy (advance_load_state whole_floats (some fresh) "h" tight policy "t")
advance-IsGated_example =
    advance-IsGated whole_floats policy "h" "t" tight fresh policy_valid fresh-IsGated

sustained_breach_example :
    (advance_all whole_floats policy "h" "t" fresh (tight ∷ tight ∷ [])).load_level ≡ 2
sustained_breach_example =
    sustained_breach whole_floats policy "h" "t" 2 (tight ∷ tight ∷ []) fresh policy_valid
      fresh-IsGated (tight_level, (tight_level, tt)) (unfold initial_state in omega arith)
      (omega arith)

abbrev shedding : LoadHostState whole_floats
shedding = record fresh { load_level = 2; observed_level = 2 }

shedding-IsGated : IsGated whole_floats policy shedding
unfolding initial_state
shedding-IsGated = omega arith

sustained_clear_example :
    (advance_all whole_floats policy "h" "t" shedding (calm ∷ calm ∷ [])).load_level ≡ 0
sustained_clear_example =
    sustained_clear whole_floats policy "h" "t" (calm ∷ calm ∷ []) shedding policy_valid
      shedding-IsGated (calm_clear, (calm_clear, tt)) (omega arith)

abbrev usage : UsagePolicy
usage = record { max_running = some 5 }

load_level_changes_example :
    let t' = advance_load_state whole_floats (some shedding) "h" calm policy "t" in
    (t'.load_level ≡ shedding.load_level)
    ⊎ ((t'.load_level ≡ pressure_level whole_floats calm policy)
        × (shedding.load_level < t'.load_level)
        × ((policy.consecutive_sweeps ≤ 1)
            ⊎ ((shedding.observed_level ≡ t'.load_level)
                × (policy.consecutive_sweeps ≤ shedding.breach_sweeps + 1))))
    ⊎ ((t'.load_level ≡ 0)
        × (0 < shedding.load_level)
        × (pressure_is_clear whole_floats calm policy ≡ true)
        × (policy.consecutive_sweeps ≤ shedding.clear_sweeps + 1))
load_level_changes_example = load_level_changes whole_floats policy "h" "t" calm shedding
