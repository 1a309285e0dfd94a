-- ===== src/ShedOrder/Examples.antt =====
-- Instances of the shed-order theorems.
use mathlib.Core.List.{Perm}
use chitra.Prelude.{ℕ, String, ◌≡◌, refl, true, Option, none, List, [], ◌∷◌, map}
use chitra.Prelude.Sort.{IsRanked, sorted}
use chitra.Floats.{whole_floats}
use chitra.GoalRecord.{GoalRecord, working, held, blocked, session_host, session_name}
use chitra.ShedOrder.{
  ShedCandidate, LaneActivity, category, rank_shed_candidates, build_shed_candidates,
}
use chitra.ShedOrder.Laws.{rank_shed_candidates_lem}

abbrev goals : List GoalRecord
goals =
    record { session_ref = "h:a"; status = working; updated_at = "t1" }
    ∷ record { session_ref = "h:b"; status = blocked; updated_at = "t2" }
    ∷ record { session_ref = "h:c"; status = held; updated_at = "t3" }
    ∷ []

abbrev activities : List LaneActivity
activities =
    record { session_ref = "h:a"; last_change_at = "t1"; attached = true; backend = "codex" } ∷ []

abbrev candidates : List (ShedCandidate whole_floats)
candidates = build_shed_candidates whole_floats activities [] "h" goals

-- a parser that accepts nothing
abbrev no_times : String → Option ℕ
no_times s = none

rank_shed_candidates_example :
    Perm (rank_shed_candidates whole_floats no_times candidates) candidates
    × IsRanked (category whole_floats) (rank_shed_candidates whole_floats no_times candidates)
rank_shed_candidates_example = rank_shed_candidates_lem whole_floats no_times candidates

-- the blocked lane is shed before the working one, and the held one is left alone
blocked_first :
    map
      (λ (c : ShedCandidate whole_floats). c.session_ref)
      (rank_shed_candidates whole_floats no_times candidates)
    ≡ "h:b" ∷ "h:a" ∷ []
unfolding rank_shed_candidates build_shed_candidates session_host session_name sorted
blocked_first = refl
