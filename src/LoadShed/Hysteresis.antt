-- ===== src/LoadShed/Hysteresis.antt =====
-- The resume line of load_shed.py lies strictly inside level 0 of the pressure ladder.
use chitra.Prelude.{◌≡◌, true, false, ok, arith}
use chitra.Floats.{Floats}
use chitra.PolicyConfig.{LoadPolicy, validate_ladder}
use chitra.LoadShed.{PressureSample, pressure_level, pressure_is_clear}

module _ (F : Floats) (p : LoadPolicy F) where
  open F use {lt, le, lt_trans, lt_asymm, le-lt}

  -- What an accepted ladder guarantees of its thresholds.
  record IsLadder : Type 0 where
    mem_32 : lt p.l3_mem_available_pct p.l2_mem_available_pct ≡ true
    mem_21 : lt p.l2_mem_available_pct p.l1_mem_available_pct ≡ true
    mem_1 : lt p.l1_mem_available_pct p.clear_mem_available_pct ≡ true
    some_1 : lt p.clear_memory_some_avg60 p.l1_memory_some_avg60 ≡ true
    some_21 : lt p.l1_memory_some_avg60 p.l2_memory_some_avg60 ≡ true

  validate_ladder-IsLadder : validate_ladder F p ≡ ok p → IsLadder
  unfolding validate_ladder
  validate_ladder-IsLadder h = ground arith

  module _ (s : PressureSample F) (clear : pressure_is_clear F s p ≡ true) where
    -- What a clear sample says, reading by reading.
    record IsClear : Type 0 where
      mem : lt p.clear_mem_available_pct s.mem_available_pct ≡ true
      some_line : lt s.memory_some_avg60 p.clear_memory_some_avg60 ≡ true
      full : le s.memory_full_avg60 p.l3_memory_full_avg60 ≡ true
      cpu : le s.cpu_some_avg60 p.l1_cpu_some_avg60 ≡ true

    clear-IsClear : IsClear
    unfolding pressure_is_clear
    clear-IsClear = ground arith

    -- Each reading clears each threshold of the ladder.
    record IsAtRest : Type 0 where
      mem_1 : lt s.mem_available_pct p.l1_mem_available_pct ≡ false
      mem_2 : lt s.mem_available_pct p.l2_mem_available_pct ≡ false
      mem_3 : lt s.mem_available_pct p.l3_mem_available_pct ≡ false
      some_1 : lt p.l1_memory_some_avg60 s.memory_some_avg60 ≡ false
      some_2 : lt p.l2_memory_some_avg60 s.memory_some_avg60 ≡ false
      full : lt p.l3_memory_full_avg60 s.memory_full_avg60 ≡ false
      cpu : lt p.l1_cpu_some_avg60 s.cpu_some_avg60 ≡ false

    clear-IsAtRest : IsLadder → IsAtRest
    clear-IsAtRest l =
        let c = clear-IsClear in
        let above_1 = lt_trans _ _ _ l.mem_1 c.mem in
        let above_2 = lt_trans _ _ _ l.mem_21 above_1 in
        let under_1 = lt_trans _ _ _ c.some_line l.some_1 in
        record {
          mem_1 = lt_asymm _ _ above_1;
          mem_2 = lt_asymm _ _ above_2;
          mem_3 = lt_asymm _ _ (lt_trans _ _ _ l.mem_32 above_2);
          some_1 = lt_asymm _ _ under_1;
          some_2 = lt_asymm _ _ (lt_trans _ _ _ under_1 l.some_21);
          full = le-lt _ _ c.full;
          cpu = le-lt _ _ c.cpu;
        }

    -- Under a ladder that the validator accepts, a sample that counts as clear has pressure level 0:
    -- the clear line lies below every breach line.
    pub clear-pressure_level : validate_ladder F p ≡ ok p → pressure_level F s p ≡ 0
    unfolding pressure_level
    clear-pressure_level valid =
        let r = clear-IsAtRest (validate_ladder-IsLadder valid) in
        simp (r.mem_1, r.mem_2, r.mem_3, r.some_1, r.some_2, r.full, r.cpu)
