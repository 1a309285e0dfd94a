-- ===== src/ShedOrder.antt =====
-- src/chitra/load_shed.py: the candidates for shedding and their order. `timestamp` stands for the
-- standard library's ISO 8601 parser followed by `.timestamp()`: `none` is its ValueError.
pub mod Laws
mod Examples
use Prim.Native.Nat.{Ordering}
use Prim.Native.String.{compare}
use chitra.Prelude.{
  ℕ, zero, suc, String, ◌==◌, Bool, true, false, not, ◌&&◌, ◌||◌, Option, none, some, List, [], ◌∷◌,
  find, reverse, ltb, if◌then◌else◌, is_some,
}
use chitra.Prelude.Sort.{sorted}
use chitra.Floats.{Floats}
use chitra.GoalRecord.{GoalStatus, blocked, idle, GoalRecord, is_held, session_host, session_name}

pub data PauseBackend : Type 0 where
  claude codex : PauseBackend

-- the fields of `LaneActivity` and `RegistryEntry` that are read here
pub record LaneActivity : Type 0 where
  pub session_ref : String
  pub last_change_at : String
  pub attached : Bool
  pub backend : String

pub record RegistryEntry : Type 0 where
  pub tmux_session : String
  pub kind : String

pub record ShedCandidate (F : Floats) : Type 0 where
  pub session_ref : String
  pub goal : Option GoalRecord
  pub attached : Bool
  pub last_activity_at : String
  pub transcript_mtime : Option F.Float
  pub backend : PauseBackend

module _ (F : Floats) where
  status_category : GoalStatus → Bool → ℕ
  status_category blocked attached = 0
  status_category idle attached = 1
  status_category _ attached = if not attached then 2 else 3

  -- 0: no goal, or blocked; 1: idle; 2: detached; 3: active
  pub category : ShedCandidate F → ℕ
  unfolding status_category
  category c = elim c.goal [ none ↦ 0 | some g ↦ status_category g.status c.attached ]

module _ (F : Floats) (timestamp : String → Option F.Float) where
  open F use {Float, zero_float, lt, eq}

  float_or : Option Float → Float → Float
  float_or none d = d
  float_or (some x) d = x

  timestamp_rank : String → Float
  unfolding float_or
  timestamp_rank value = if value == "" then zero_float else float_or (timestamp value) zero_float

  recency : ShedCandidate F → Float
  unfolding timestamp_rank
  recency c =
      let changed = timestamp_rank c.last_activity_at in
      elim (category F c) [ suc (suc zero) ↦ float_or c.transcript_mtime changed | _ ↦ changed ]

  is_less : Ordering → Bool
  is_less Ordering.lt = true
  is_less _ = false

  -- `key(x) < key(y)` on the tuples (category, recency, session_ref)
  key_before : ShedCandidate F → ShedCandidate F → Bool
  unfolding category recency is_less
  key_before x y =
      if ltb (category F x) (category F y)
      then true
      else if ltb (category F y) (category F x)
      then false
      else if eq (recency x) (recency y)
      then is_less (compare x.session_ref y.session_ref)
      else lt (recency x) (recency y)

  pub rank_shed_candidates : List (ShedCandidate F) → List (ShedCandidate F)
  unfolding key_before
  rank_shed_candidates candidates = sorted key_before candidates

-- `{item.session_ref: item for item in activities}.get(ref)`: the last one wins
pub activity_of : String → List LaneActivity → Option LaneActivity
activity_of ref activities = find (λ a. a.session_ref == ref) (reverse activities)

pub entry_of : String → List RegistryEntry → Option RegistryEntry
entry_of name registry = find (λ e. e.tmux_session == name) (reverse registry)

activity_backend : Option LaneActivity → String
activity_backend none = "unknown"
activity_backend (some a) = a.backend

entry_kind : Option RegistryEntry → String
entry_kind none = "claude"
entry_kind (some e) = e.kind

-- the two `continue`s: a lane whose backend is OpenCode is passed over
pub is_opencode : Option LaneActivity → Option RegistryEntry → Bool
unfolding activity_backend entry_kind
is_opencode a e =
    activity_backend a == "opencode"
    || (activity_backend a == "unknown" && is_some e && entry_kind e == "opencode")

backend_name : Option LaneActivity → Option RegistryEntry → String
unfolding activity_backend entry_kind
backend_name a e =
    if not (activity_backend a == "unknown") then activity_backend a else entry_kind e

attached_of : Option LaneActivity → Bool
attached_of none = true
attached_of (some a) = a.attached

last_activity_of : GoalRecord → Option LaneActivity → String
last_activity_of g none = g.updated_at
last_activity_of g (some a) = a.last_change_at

module _ (F : Floats) (activities : List LaneActivity) (registry : List RegistryEntry)
    (host : String) where
  -- one round of the loop; `none` is `continue`
  candidate_of : GoalRecord → Option (ShedCandidate F)
  unfolding activity_of entry_of is_opencode backend_name attached_of last_activity_of
  candidate_of g =
      let a = activity_of g.session_ref activities in
      let e = entry_of (session_name g.session_ref) registry in
      if not (session_host g.session_ref == host) || is_held g.status
      then none
      else if is_opencode a e
      then none
      else some (record {
        session_ref = g.session_ref;
        goal = some g;
        attached = attached_of a;
        last_activity_at = last_activity_of g a;
        transcript_mtime = none;
        backend = if backend_name a e == "codex" then codex else claude;
      })

  pub build_shed_candidates : List GoalRecord → List (ShedCandidate F)
  unfolding candidate_of
  build_shed_candidates [] = []
  build_shed_candidates (g ∷ gs) =
      let rest = build_shed_candidates gs in
      elim (candidate_of g) [ none ↦ rest | some c ↦ c ∷ rest ]
