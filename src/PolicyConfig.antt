-- ===== src/PolicyConfig.antt =====
-- src/chitra/policy_config.py: the policies of load shedding, and their validators. A whole-number
-- setting is a natural number: a validator refuses every negative one.
use chitra.Prelude.{ℕ, String, not, ◌&&◌, ◌||◌, Option, none, some, Result, ok, ◌>>◌, require, leb}
use chitra.Floats.{Floats}

pub record PausePolicy : Type 0 where
  pub checkpoint_deadline_seconds : ℕ
  pub stop_deadline_seconds : ℕ
  pub quiescence_quiet_seconds : ℕ
  pub quiescence_timeout_seconds : ℕ
  pub resume_deadline_seconds : ℕ
  pub max_retry_attempts : ℕ

unfoldable pub validate_bounds : PausePolicy → Result String PausePolicy
validate_bounds p = do
  require (leb 1 p.checkpoint_deadline_seconds) "checkpoint_deadline_seconds must be at least 1"
  require (leb 1 p.stop_deadline_seconds) "stop_deadline_seconds must be at least 1"
  require (leb 1 p.quiescence_quiet_seconds) "quiescence_quiet_seconds must be at least 1"
  require (leb 1 p.quiescence_timeout_seconds) "quiescence_timeout_seconds must be at least 1"
  require (leb 1 p.resume_deadline_seconds) "resume_deadline_seconds must be at least 1"
  require (leb 1 p.max_retry_attempts) "max_retry_attempts must be at least 1"
  require (leb p.quiescence_quiet_seconds p.quiescence_timeout_seconds)
      "quiescence_quiet_seconds must not exceed quiescence_timeout_seconds"
  ok p

-- The load ladder's thresholds and caps.
pub record LoadPolicy (F : Floats) : Type 0 where
  pub baseline_max_running : ℕ
  pub l1_max_running : ℕ
  pub l2_max_running : ℕ
  pub l3_max_running : ℕ
  pub l1_mem_available_pct : F.Float
  pub l2_mem_available_pct : F.Float
  pub l3_mem_available_pct : F.Float
  pub l1_memory_some_avg60 : F.Float
  pub l2_memory_some_avg60 : F.Float
  pub l3_memory_full_avg60 : F.Float
  pub l1_cpu_some_avg60 : F.Float
  pub clear_mem_available_pct : F.Float
  pub clear_memory_some_avg60 : F.Float
  pub consecutive_sweeps : ℕ
  pub l3_pause : PausePolicy

-- The one setting of `UsagePolicy` that load shedding reads.
pub record UsagePolicy : Type 0 where
  pub max_running : Option ℕ

module _ (F : Floats) where
  open F use {Float, zero_float, hundred, lt, le}

  unfoldable pub validate_ladder : LoadPolicy F → Result String (LoadPolicy F)
  validate_ladder p = do
    require
        (lt zero_float p.l3_mem_available_pct
          && lt p.l3_mem_available_pct p.l2_mem_available_pct
          && lt p.l2_mem_available_pct p.l1_mem_available_pct)
        "load MemAvailable thresholds must increase from L3 through L1"
    require
        (lt p.l1_mem_available_pct p.clear_mem_available_pct
          && le p.clear_mem_available_pct hundred)
        "clear_mem_available_pct must exceed the L1 threshold and be at most 100"
    require
        (le zero_float p.clear_memory_some_avg60
          && lt p.clear_memory_some_avg60 p.l1_memory_some_avg60
          && lt p.l1_memory_some_avg60 p.l2_memory_some_avg60)
        "load memory PSI some thresholds must increase from clear through L2"
    require (not (le p.l3_memory_full_avg60 zero_float || le p.l1_cpu_some_avg60 zero_float))
        "load PSI thresholds must be positive"
    require
        (leb 1 p.l3_max_running
          && leb p.l3_max_running p.l2_max_running
          && leb p.l2_max_running p.l1_max_running
          && leb p.l1_max_running p.baseline_max_running)
        "load running caps must increase from L3 through baseline"
    require (leb 1 p.consecutive_sweeps) "load consecutive_sweeps must be at least 1"
    ok p

-- the last check of `validate_thresholds`
unfoldable pub validate_max_running : UsagePolicy → Result String UsagePolicy
validate_max_running u = elim u.max_running [
  | none ↦ ok u
  | some n ↦ (do require (leb 1 n) "max_running must be at least 1 when set"; ok u)
]
