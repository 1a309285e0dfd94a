-- ===== src/LoadShed/Caps.antt =====
-- The running caps of load_shed.py.
use chitra.Prelude.{ℕ, ◌≤◌, zero, suc}
use chitra.Floats.{Floats}
use chitra.PolicyConfig.{LoadPolicy, UsagePolicy}
use chitra.LoadShed.{baseline}

module _ (F : Floats) (p : LoadPolicy F) (u : UsagePolicy) where
  abbrev cap_at : ℕ → ℕ
  cap_at zero = p.baseline_max_running
  cap_at (suc zero) = p.l1_max_running
  cap_at (suc (suc zero)) = p.l2_max_running
  cap_at (suc (suc (suc n))) = p.l3_max_running

  -- What the validators say of the caps.
  record IsNarrowing : Type 0 where
    one : 1 ≤ p.l3_max_running
    l32 : p.l3_max_running ≤ p.l2_max_running
    l21 : p.l2_max_running ≤ p.l1_max_running
    l10 : p.l1_max_running ≤ p.baseline_max_running
    own : 1 ≤ baseline F u p
