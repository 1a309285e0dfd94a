-- ===== src/Ladder.antt =====
-- src/chitra/detect/ladder.py, `ResponseLadder`: the response to one recurring finding.
pub mod Decisions
pub mod History
mod Examples
use chitra.Prelude.{
  ℕ, zero, suc, String, ◌==◌, Bool, true, false, not, ◌&&◌, ◌||◌, Option, none, some, List, [], ◌∷◌,
  any, if◌then◌else◌, Result, ok, err, ◌>>=◌, leb, truthy,
}
use chitra.Digest.{Digest}
use chitra.Json.{Loads, long_integer, deep_nesting}
use chitra.Ledger.{unsupported_version, type_error as ledger_type_error}
use chitra.Journal.{CanonicalEvent}
use chitra.Incident.{
  IncidentStage, nudge, redirect, rescue, relaunch, Finding, ConsumptionProof, IncidentRecord,
  track_key,
}
use chitra.Consumption.{ConsumptionError, ledger_error, load_error, discover_consumption_proof}
use chitra.IncidentStore.{
  Store, StoreError, value_error, type_error, recursion_error, latest, open_incident,
  advance_to_next_stage,
}

pub data LadderAction : Type 0 where
  open_track hold advance : LadderAction

pub record LadderDecision : Type 0 where
  pub action : LadderAction
  pub stage : IncidentStage
  pub incident : IncidentRecord
  pub reason : String

-- The index of the first event of an id; `none` is -1.
pub position_of : List CanonicalEvent → String → Option ℕ
position_of [] id = none
position_of (e ∷ es) id =
    let later = position_of es id in
    if e.event_id == id then some 0 else elim later [ none ↦ none | some n ↦ some (suc n) ]

at_or_after : Option ℕ → Option ℕ → Bool
at_or_after none p = false
at_or_after (some turn) none = false
at_or_after (some turn) (some n) = leb turn n

-- does the finding cite an event at or after the turn?
recurs : List CanonicalEvent → Finding → Option ConsumptionProof → Bool
unfolding position_of at_or_after
recurs events f none = false
recurs events f (some p) =
    any (λ ref. at_or_after (position_of events p.turn_event_id) (position_of events ref))
      f.event_refs

-- what escapes the look-up of a proof escapes the evaluation
raised : ConsumptionError → StoreError
raised (ledger_error (unsupported_version v)) = value_error "unsupported signature version"
raised (ledger_error ledger_type_error) =
    type_error "comparing strings with non-ASCII characters is not supported"
raised (load_error long_integer) = value_error "exceeds the limit for integer string conversion"
raised (load_error deep_nesting) = recursion_error

proven_by :
    List CanonicalEvent
    → Finding
    → Result ConsumptionError (Option ConsumptionProof)
    → Result StoreError Bool
unfolding recurs raised
proven_by events f (err x) = err (raised x)
proven_by events f (ok found) = ok (recurs events f found)

module _ (loads : Loads) (D : Digest) (events : List CanonicalEvent) (key : Option String) where
  proven_with :
      IncidentRecord → Finding → Option ConsumptionProof → Option String → Result StoreError Bool
  unfolding proven_by
  proven_with r f none k = ok false
  proven_with r f (some p) none = ok false
  proven_with r f (some p) (some k) =
      proven_by events f (discover_consumption_proof loads D r events p.ledger_entry k)

  pub consumption_proven : IncidentRecord → Finding → Result StoreError Bool
  unfolding proven_with
  consumption_proven r f = proven_with r f r.consumption key

  is_relaunch : IncidentStage → Bool
  is_relaunch relaunch = true
  is_relaunch _ = false

  needs_seal : IncidentStage → Bool
  needs_seal rescue = true
  needs_seal _ = false

  held : IncidentRecord → String → Store → LadderDecision × Store
  held r reason s = (record { action = hold; stage = r.stage; incident = r; reason = reason }, s)

  decided : LadderAction → String → IncidentRecord × Store → LadderDecision × Store
  decided action reason (r, s) =
      (record { action = action; stage = r.stage; incident = r; reason = reason }, s)

  -- the tests on an existing record, once its consumption is settled
  pub climb_if :
      Bool
      → IncidentRecord
      → String
      → Finding
      → String
      → String
      → Store
      → Result StoreError (LadderDecision × Store)
  unfolding needs_seal held decided
  climb_if proven r id f marker now s =
      if not proven
      then ok
          (held r "prior order consumption is not proven; elapsed time never advances the ladder" s)
      else if needs_seal r.stage
          && (not (truthy r.rescue_bundle_sha256) || not (truthy r.checkpoint_ref))
      then ok (held r "relaunch requires a sealed RESCUE bundle and checkpoint receipt" s)
      else (do
        moved ← advance_to_next_stage D id marker f now s
        ok (
            decided advance "a finding on the same unmet item recurred after proven consumption"
              moved))

  respond :
      Option IncidentRecord
      → String
      → String
      → Finding
      → String
      → String
      → String
      → Store
      → Result StoreError (LadderDecision × Store)
  unfolding consumption_proven climb_if is_relaunch
  respond none id lane f marker goal_digest now s = ok (
      decided open_track "first finding on this unmet item under the frozen goal"
        (open_incident D lane goal_digest f marker now s))
  respond (some r) id lane f marker goal_digest now s =
      if is_relaunch r.stage
      then ok (held r "incident already reached relaunch" s)
      else (do proven ← consumption_proven r f; climb_if proven r id f marker now s)

  pub evaluate :
      String
      → Finding
      → String
      → String
      → String
      → Store
      → Result StoreError (LadderDecision × Store)
  unfolding respond
  evaluate lane f marker goal_digest now s =
      if goal_digest == ""
      then err (value_error "evaluate requires the frozen goal digest to key the pressure track")
      else (let id = track_key D goal_digest f.unmet_item in
          respond (latest D id s) id lane f marker goal_digest now s)
