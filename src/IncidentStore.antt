-- ===== src/IncidentStore.antt =====
-- src/chitra/detect/ladder.py, `IncidentStore`: the append-only incident log of one lane, with the
-- log of consumed checkpoint receipts. The log is the list of the rows that it loads as; pydantic's
-- writing and reading of a row is not modelled. `now` is the time of the call. The checks of the
-- rescue bundle and of the checkpoint receipt are a parameter (`RescueEvidence`).
pub mod Laws
pub mod Receipts
pub mod Examples
use chitra.Prelude.{
  ℕ, zero, suc, String, ◌==◌, Bool, true, false, not, ◌&&◌, ◌||◌, Option, none, some, List, [], ◌∷◌,
  ◌++◌, reverse, find_map, if◌then◌else◌, Result, ok, err, ◌>>=◌, ◌>>◌, require, codes, all, leb,
  length, is_alnum, is_name_char, eqb, truthy, any,
}
use chitra.Digest.{Digest}
use chitra.Incident.{
  IncidentStage, nudge, redirect, rescue, relaunch, next_stage, Finding, ConsumptionProof,
  IncidentRecord, Row, v2, legacy, track_id,
}

pub data StoreError : Type 0 where
  key_error : String → StoreError
  value_error : String → StoreError
  type_error : String → StoreError
  recursion_error : StoreError

pub record Store : Type 0 where
  pub rows : List Row
  -- the reference and the nonce of each consumed receipt
  pub consumed : List (String × String)

pub record RescueEvidence : Type 0 where
  -- `_rescue_bundle_verified(root, record, bundle_sha256) is not None`
  pub bundle_verified : IncidentRecord → String → Bool
  -- `_checkpoint_receipt_nonce(root, record, bundle, checkpoint_ref)`
  pub receipt_nonce : IncidentRecord → String → String → Option String

-- [A-Za-z0-9][A-Za-z0-9_.-]{0,127}\Z
safe_codes : List ℕ → Bool
safe_codes [] = false
safe_codes (c ∷ cs) = is_alnum c && all is_name_char cs && leb (length cs) 127

pub is_safe_ref : String → Bool
unfolding safe_codes
is_safe_ref s = safe_codes (codes s)

-- [0-9a-f]{64}\Z
pub is_hex64 : String → Bool
is_hex64 s =
    all (λ c. (leb 48 c && leb c 57) || (leb 97 c && leb c 102)) (codes s)
    && eqb (length (codes s)) 64

module _ (D : Digest) where
  on_track : String → Row → Option IncidentRecord
  on_track id (v2 r) = if track_id D r == id then some r else none
  on_track id (legacy r) = none

  on_marker : String → String → Row → Option IncidentRecord
  on_marker id marker (v2 r) =
      if track_id D r == id && r.order_marker == marker then some r else none
  on_marker id marker (legacy r) = none

  -- the newest v2 record of a track
  unfoldable pub latest : String → Store → Option IncidentRecord
  unfolding on_track
  latest id s = find_map (on_track id) (reverse s.rows)

  -- the newest v2 record of a track at a marker
  unfoldable pub newest_at : String → String → Store → Option IncidentRecord
  unfolding on_marker
  newest_at id marker s = find_map (on_marker id marker) (reverse s.rows)

  with_fingerprint : String → Row → Option Row
  with_fingerprint fp (v2 r) = if r.fingerprint == fp then some (v2 r) else none
  with_fingerprint fp (legacy r) = if r.fingerprint == fp then some (legacy r) else none

  pub latest_by_fingerprint : String → Store → Option Row
  unfolding with_fingerprint
  latest_by_fingerprint fp s = find_map (with_fingerprint fp) (reverse s.rows)

  unfoldable pub append : IncidentRecord → Store → Store
  append r s = record s { rows = s.rows ++ v2 r ∷ [] }

  -- the record that opens a track
  unfoldable pub opening : String → String → Finding → String → String → IncidentRecord
  opening lane goal_digest f marker now = record {
    lane = lane;
    goal_digest = goal_digest;
    fingerprint = f.fingerprint;
    detector = f.detector;
    stage = nudge;
    order_marker = marker;
    opened_at = now;
    event_refs = f.event_refs;
    unmet_item = f.unmet_item;
    expected_next_progress = f.expected_next_progress;
    detail = f.detail;
    consumption = none;
    rescue_bundle_sha256 = "";
    checkpoint_ref = "";
  }

  unfoldable pub open_incident :
      String → String → Finding → String → String → Store → IncidentRecord × Store
  unfolding append opening
  open_incident lane goal_digest f marker now s =
      let r = opening lane goal_digest f marker now in (r, append r s)

  attach_to :
      Option IncidentRecord → ConsumptionProof → Store → Result StoreError (IncidentRecord × Store)
  unfolding append
  attach_to none proof s = err (key_error "no open incident for track at marker")
  attach_to (some target) proof s =
      let updated = record target { consumption = some proof } in ok (updated, append updated s)

  unfoldable pub attach_consumption :
      String → String → ConsumptionProof → Store → Result StoreError (IncidentRecord × Store)
  unfolding newest_at attach_to
  attach_consumption id marker proof s = attach_to (newest_at id marker s) proof s

  unfoldable pub advanced_to :
      IncidentStage → IncidentRecord → String → Finding → String → IncidentRecord
  advanced_to stage target marker f now = record target {
    stage = stage;
    order_marker = marker;
    opened_at = now;
    fingerprint = f.fingerprint;
    detector = f.detector;
    event_refs = f.event_refs;
    expected_next_progress = f.expected_next_progress;
    detail = f.detail;
    consumption = none;
    rescue_bundle_sha256 = "";
    checkpoint_ref = "";
  }

  advance_stage :
      Option IncidentStage
      → IncidentRecord
      → String
      → Finding
      → String
      → Store
      → Result StoreError (IncidentRecord × Store)
  unfolding append advanced_to
  advance_stage none target marker f now s = err (value_error "incident already reached relaunch")
  advance_stage (some stage) target marker f now s =
      let advanced = advanced_to stage target marker f now in ok (advanced, append advanced s)

  advance_target :
      Option IncidentRecord
      → String
      → Finding
      → String
      → Store
      → Result StoreError (IncidentRecord × Store)
  unfolding advance_stage
  advance_target none marker f now s = err (key_error "no incident for track")
  advance_target (some target) marker f now s = elim target.consumption [
    | none ↦ err (value_error "ladder cannot advance without proven consumption")
    | some p ↦ advance_stage (next_stage target.stage) target marker f now s
  ]

  unfoldable pub advance_to_next_stage :
      String → String → Finding → String → Store → Result StoreError (IncidentRecord × Store)
  unfolding latest advance_target
  advance_to_next_stage id marker f now s = advance_target (latest id s) marker f now s

  is_used : String → String → String × String → Bool
  is_used ref nonce (r, n) = (truthy r && r == ref) || (truthy n && n == nonce)

  is_sealed : Option IncidentRecord → Bool
  is_sealed none = false
  is_sealed (some r) = truthy r.checkpoint_ref || truthy r.rescue_bundle_sha256

  -- What `_load_consumed_checkpoints` makes of the lines of the log: a torn or unusable one is `none`
  -- and is skipped; where the log cannot be read there are none.
  unfoldable pub usable : List (Option (String × String)) → List (String × String)
  usable [] = []
  usable (none ∷ lines) = usable lines
  usable (some x ∷ lines) = x ∷ usable lines

  unfoldable pub load_consumed_checkpoints :
      Option (List (Option (String × String))) → List (String × String)
  unfolding usable
  load_consumed_checkpoints none = []
  load_consumed_checkpoints (some lines) = usable lines

  -- the two checks; `seen` is what the log of consumed receipts was read as
  pub check_receipt :
      IncidentRecord
      → String
      → String
      → List (String × String)
      → Store
      → Result StoreError (Unit {0})
  unfolding is_used latest is_sealed
  check_receipt r ref nonce seen s = do
    require (not (any (is_used ref nonce) seen))
        (value_error "checkpoint receipt was already consumed; a receipt seals exactly once")
    require (not (is_sealed (latest (track_id D r) s)))
        (value_error "incident rescue stage is already sealed")

  -- `_append_consumed_checkpoint`
  abbrev pub spend : String → String → Store → Store
  spend ref nonce s = record s { consumed = s.consumed ++ (ref, nonce) ∷ [] }

  -- Under the lane's lock: spend the receipt, then append the seal. `log` is what reading the log of
  -- consumed receipts gave, `none` for an `OSError`. Other lanes share that log and not the lock, so that
  -- it may differ from the store's receipts.
  pub consume_receipt_and_seal :
      IncidentRecord
      → String
      → String
      → Option (List (Option (String × String)))
      → Store
      → Result StoreError (IncidentRecord × Store)
  unfolding check_receipt append load_consumed_checkpoints
  consume_receipt_and_seal r ref nonce log s = do
    check_receipt r ref nonce (load_consumed_checkpoints log) s
    ok (r, append r (spend ref nonce s))

  is_rescue : IncidentStage → Bool
  is_rescue rescue = true
  is_rescue _ = false

  -- `raise` where there is none
  abbrev demand : Option String → StoreError → Result StoreError String
  demand none e = err e
  demand (some n) e = ok n

  abbrev demand_record : Option IncidentRecord → StoreError → Result StoreError IncidentRecord
  demand_record none e = err e
  demand_record (some r) e = ok r

  abbrev has_proof : Option ConsumptionProof → Bool
  has_proof none = false
  has_proof (some p) = true

  -- Before the lock: the record to seal, and the receipt's nonce.
  pub prepare_seal :
      RescueEvidence
      → String
      → String
      → String
      → String
      → Store
      → Result StoreError (IncidentRecord × String)
  unfolding newest_at is_rescue
  prepare_seal V id marker bundle ref s = do
    require (is_hex64 bundle && is_safe_ref ref)
        (value_error "rescue bundle hash and checkpoint reference are required")
    target ← demand_record (newest_at id marker s) (key_error "no incident for track at marker")
    require (is_rescue target.stage)
        (value_error "only the rescue stage can be sealed for relaunch")
    require (has_proof target.consumption)
        (value_error "rescue order consumption is required before sealing relaunch evidence")
    require (V.bundle_verified target bundle)
        (value_error "rescue bundle hash does not match a governed RESCUE bundle")
    nonce ←
        demand (V.receipt_nonce target bundle ref)
          (value_error "checkpoint reference does not match a governed checkpoint receipt")
    ok (record target { rescue_bundle_sha256 = bundle; checkpoint_ref = ref }, nonce)

  -- `at_load` is the store that was loaded, `at_lock` the one that the lock then finds, and `log` the
  -- receipts that are then read.
  pub seal_rescue_checkpoint :
      RescueEvidence
      → String
      → String
      → String
      → String
      → Store
      → Option (List (Option (String × String)))
      → Store
      → Result StoreError (IncidentRecord × Store)
  unfolding prepare_seal consume_receipt_and_seal
  seal_rescue_checkpoint V id marker bundle ref at_load log at_lock = do
    (r, nonce) ← prepare_seal V id marker bundle ref at_load
    consume_receipt_and_seal r ref nonce log at_lock
