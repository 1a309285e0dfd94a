-- ===== src/Supervision/Transition.antt =====
-- `transition` and the look-ups of `SupervisionLedger`.
use chitra.Prelude.{
  ℕ, String, ◌==◌, ◌≡◌, Bool, true, false, not, ◌&&◌, Option, none, some, List, find, reverse,
  if◌then◌else◌, Result, ok, err, ◌>>=◌, ◌>>◌, require, leb, truthy, codes,
}
use chitra.Digest.{Digest}
use chitra.Supervision.{
  SupervisionState, SupervisionRecord, SupervisionError, value_error, RowFormat, lane_codes, last,
  allowed_transition, load, append_row, Disk, expected_revision, event_id,
}

-- the arguments of `transition`
pub record Move : Type 0 where
  pub state : SupervisionState
  pub session_ref : String
  pub goal_version : ℕ
  pub goal_digest_value : String
  pub reason : String
  pub at_time : Option String
  pub finding_fingerprint : Option String
  pub stage : Option String
  pub order_id : Option String
  pub order_marker : Option String
  pub observed_event_id : Option String
  pub turn_boundary_event_id : Option String
  pub attempt : Option ℕ
  pub next_retry_at : Option String
  pub obstacle : Option String
  pub recovery_count : Option ℕ

-- what is supplied, else the previous row's value, else the default
abbrev pub carry :
    {A : Type 0} → A → (SupervisionRecord → A) → Option SupervisionRecord → Option A → A
carry default f previous (some v) = v
carry default f (some p) none = f p
carry default f none none = default

-- at or _utc_now()
unfoldable pub time_or_now : Option String → String → String
time_or_now none now = now
time_or_now (some s) now = if truthy s then s else now

unfoldable pub same_session : Option SupervisionRecord → String → Bool
same_session none s = true
same_session (some p) s = s == p.session_ref

module _ (D : Digest) (R : RowFormat) (lane : String) where
  -- SupervisionRecord(…)
  supervision_record : SupervisionRecord → Result SupervisionError SupervisionRecord
  unfolding lane_codes
  supervision_record r = do
    require
        (leb 1 r.revision
          && truthy r.at_time
          && R.is_aware_time r.at_time
          && lane_codes (codes r.lane)
          && truthy r.session_ref
          && leb 1 r.goal_version
          && truthy r.goal_digest
          && truthy r.reason)
        (value_error "invalid supervision record")
    ok r

  unfoldable pub built : Option SupervisionRecord → String → Move → SupervisionRecord
  unfolding time_or_now expected_revision
  built previous now m = record {
    revision = expected_revision previous;
    event_id = "";
    at_time = time_or_now m.at_time now;
    lane = lane;
    session_ref = m.session_ref;
    goal_version = m.goal_version;
    goal_digest = m.goal_digest_value;
    state = m.state;
    reason = m.reason;
    finding_fingerprint = carry "" (λ p. p.finding_fingerprint) previous m.finding_fingerprint;
    stage = carry "" (λ p. p.stage) previous m.stage;
    order_id = carry "" (λ p. p.order_id) previous m.order_id;
    order_marker = carry "" (λ p. p.order_marker) previous m.order_marker;
    observed_event_id = carry "" (λ p. p.observed_event_id) previous m.observed_event_id;
    turn_boundary_event_id =
        carry "" (λ p. p.turn_boundary_event_id) previous m.turn_boundary_event_id;
    attempt = carry 0 (λ p. p.attempt) previous m.attempt;
    next_retry_at = carry "" (λ p. p.next_retry_at) previous m.next_retry_at;
    obstacle = carry "" (λ p. p.obstacle) previous m.obstacle;
    recovery_count = carry 0 (λ p. p.recovery_count) previous m.recovery_count;
  }

  append_built :
      Disk
      → Option String
      → Result SupervisionError SupervisionRecord
      → Result SupervisionError SupervisionRecord × Option String
  append_built d file (err e) = (err e, file)
  append_built d file (ok r) = append_row D R lane d file r

  transition_from :
      Disk
      → Option String
      → Result SupervisionError (List SupervisionRecord)
      → String
      → Move
      → Result SupervisionError SupervisionRecord × Option String
  unfolding append_built supervision_record built same_session last
  transition_from d file (err e) now m = (err e, file)
  transition_from d file (ok records) now m =
      if not (same_session (last records) m.session_ref)
      then (err (value_error "supervision session cannot change within one lane ledger"), file)
      else append_built d file (supervision_record (built (last records) now m))

  pub transition :
      Disk
      → Option String
      → String
      → Move
      → Result SupervisionError SupervisionRecord × Option String
  unfolding transition_from
  transition d file now m = transition_from d file (load D R lane file) now m

  pub latest : Option String → Result SupervisionError (Option SupervisionRecord)
  latest file = do records ← load D R lane file; ok (last records)

  agrees : Option String → String → Bool
  agrees none s = true
  agrees (some t) s = s == t

  pub latest_for_action :
      Option String
      → String
      → String
      → Option String
      → Result SupervisionError (Option SupervisionRecord)
  unfolding agrees
  latest_for_action file fingerprint stage digest = do
    records ← load D R lane file
    ok (
        find
          (λ r.
            r.finding_fingerprint == fingerprint && r.stage == stage && agrees digest r.goal_digest)
          (reverse records))

  pub latest_consumed_boundary :
      Option String → Option String → Result SupervisionError (Option SupervisionRecord)
  unfolding agrees
  latest_consumed_boundary file digest = do
    records ← load D R lane file
    ok (
        find (λ r. truthy r.turn_boundary_event_id && agrees digest r.goal_digest)
          (reverse records))

-- the table allows the state after the previous row's; a first row may have any state
abbrev pub permits : Option SupervisionRecord → SupervisionState → Bool
permits none s = true
permits (some p) s = allowed_transition p.state s

-- no call of the append raises
pub record IsWritten (d : Disk) : Type 0 where
  pub repaired : d.repair_fails ≡ false
  pub whole : d.cut_after ≡ none

module _ (D : Digest) (R : RowFormat) (lane : String) where
  -- the row that a move appends
  abbrev pub appended : Option SupervisionRecord → String → Move → SupervisionRecord
  appended previous now m = record (built D R lane previous now m) {
    event_id = event_id D R (built D R lane previous now m);
  }

  pub record IsMove (now : String) (m : Move) : Type 0 where
    pub timed : truthy (time_or_now m.at_time now) ≡ true
    pub aware_time : R.is_aware_time (time_or_now m.at_time now) ≡ true
    pub safe_lane : lane_codes (codes lane) ≡ true
    pub session : truthy m.session_ref ≡ true
    pub version : leb 1 m.goal_version ≡ true
    pub digest : truthy m.goal_digest_value ≡ true
    pub reason : truthy m.reason ≡ true
