-- ===== src/ShedOrder/Laws.antt =====
-- What the candidate list holds, and the order in which lanes are shed.
use mathlib.Core.List.{Perm}
use chitra.Prelude.{◌≤◌, String, ◌≡◌, true, false, Option, some, List, [], ◌∷◌, arith}
use chitra.Prelude.Sort.{sorted-perm, sorted-IsRanked, IsRanked}
use chitra.Floats.{Floats}
use chitra.GoalRecord.{GoalRecord, is_held, session_host, session_name}
use chitra.ShedOrder.{
  ShedCandidate, LaneActivity, RegistryEntry, category, key_before, rank_shed_candidates,
  activity_of, entry_of, is_opencode,
}

module _ (F : Floats) (timestamp : String → Option F.Float) where
  category_of_before :
      (x y : ShedCandidate F) → key_before F timestamp x y ≡ true → category F x ≤ category F y
  unfolding key_before
  category_of_before x y h = ground arith

  category_of_not_before :
      (x y : ShedCandidate F) → key_before F timestamp y x ≡ false → category F x ≤ category F y
  unfolding key_before
  category_of_not_before x y h = ground arith

  -- The shed order holds exactly the candidates, each once per occurrence, and the categories never
  -- go down: lanes with no goal or a blocked one, then idle ones, then detached ones, then active ones.
  pub rank_shed_candidates_lem :
      (cs : List (ShedCandidate F))
      → Perm (rank_shed_candidates F timestamp cs) cs
        × IsRanked (category F) (rank_shed_candidates F timestamp cs)
  unfolding rank_shed_candidates
  rank_shed_candidates_lem cs = (
    sorted-perm (key_before F timestamp) cs,
    sorted-IsRanked (key_before F timestamp) (category F) category_of_before category_of_not_before
        cs,
  )

module _ (F : Floats) (activities : List LaneActivity) (registry : List RegistryEntry)
    (host : String) where
  -- the lanes that may be shed on this host
  pub record IsSheddable (g : GoalRecord) : Type 0 where
    pub on_host : session_host g.session_ref ≡ host
    pub not_held : is_held g.status ≡ false
    pub supported :
        is_opencode
          (activity_of g.session_ref activities)
          (entry_of (session_name g.session_ref) registry)
        ≡ false

  -- the goal of a candidate, and that the candidate speaks of it
  pub record IsCandidateOf (g : GoalRecord) (c : ShedCandidate F) : Type 0 where
    pub goal : c.goal ≡ some g
    pub session_ref : c.session_ref ≡ g.session_ref
    pub sheddable : IsSheddable g

  -- The goals of the candidates, in order, are the sheddable ones.
  pub data Shed : List GoalRecord → List (ShedCandidate F) → Type 0 where
    none_left : Shed [] []
    passed :
        {g : GoalRecord} {gs : List GoalRecord} {cs : List (ShedCandidate F)}
        → ¬ (IsSheddable g)
        → Shed gs cs
        → Shed (g ∷ gs) cs
    kept :
        {g : GoalRecord} {gs : List GoalRecord} {c : ShedCandidate F} {cs : List (ShedCandidate F)}
        → IsCandidateOf g c
        → Shed gs cs
        → Shed (g ∷ gs) (c ∷ cs)
