-- ===== src/Incident.antt =====
-- src/chitra/detect/ladder.py: the data of the response ladder, and `Finding` of detectors.py. The
-- seed of a finding's fingerprint is not read after the fingerprint is made, and is left out.
use Prim.Native.String.{◌++◌ as append}
use chitra.Prelude.{
  ℕ, String, ◌==◌, Bool, true, false, ◌&&◌, Option, none, some, List, option_eq, eqb,
}
use chitra.Digest.{Digest}
use chitra.Ledger.{LedgerEntry}

pub data IncidentStage : Type 0 where
  nudge redirect rescue relaunch : IncidentStage

-- `LADDER_STAGES`, and its `index`
abbrev pub stage_index : IncidentStage → ℕ
stage_index nudge = 0
stage_index redirect = 1
stage_index rescue = 2
stage_index relaunch = 3

-- `LADDER_STAGES[index + 1]`; `none` past the last one
abbrev pub next_stage : IncidentStage → Option IncidentStage
next_stage nudge = some redirect
next_stage redirect = some rescue
next_stage rescue = some relaunch
next_stage relaunch = none

pub record Finding : Type 0 where
  pub detector : String
  pub fingerprint : String
  pub event_refs : List String
  pub unmet_item : String
  pub expected_next_progress : String
  pub detail : String

pub record ConsumptionProof : Type 0 where
  pub ledger_entry : LedgerEntry
  pub ledger_key_hex : String
  pub session_ref : String
  pub native_session_id : String
  pub user_event_id : String
  pub turn_event_id : String

pub record IncidentRecord : Type 0 where
  pub lane : String
  pub goal_digest : String
  pub fingerprint : String
  pub detector : String
  pub stage : IncidentStage
  pub order_marker : String
  pub opened_at : String
  pub event_refs : List String
  pub unmet_item : String
  pub expected_next_progress : String
  pub detail : String
  pub consumption : Option ConsumptionProof
  pub rescue_bundle_sha256 : String
  pub checkpoint_ref : String

-- the pre-v2 shape: no goal digest, so no track
pub record LegacyIncidentRecord : Type 0 where
  pub lane : String
  pub fingerprint : String
  pub detector : String
  pub stage : IncidentStage
  pub order_marker : String
  pub opened_at : String
  pub event_refs : List String
  pub unmet_item : String
  pub expected_next_progress : String
  pub detail : String
  pub consumption : Option ConsumptionProof
  pub rescue_bundle_sha256 : String
  pub checkpoint_ref : String

-- what a row of the file loads as
pub data Row : Type 0 where
  v2 : IncidentRecord → Row
  legacy : LegacyIncidentRecord → Row

-- the canonical JSON of the pair, hashed
unfoldable pub track_key : Digest → String → String → String
track_key D goal_digest unmet_item = D.sha256 (
    append "{\"goal_digest\":" (
      append (D.json_quote goal_digest)
        (append ",\"unmet_item\":" (append (D.json_quote unmet_item) "}"))))

abbrev pub track_id : Digest → IncidentRecord → String
track_id D r = track_key D r.goal_digest r.unmet_item

abbrev same_flag : Bool → Bool → Bool
same_flag true b = b
same_flag false true = false
same_flag false false = true

-- pydantic's `==` on ledger entries: every field, the private legacy fields included
unfoldable pub entry_eq : LedgerEntry → LedgerEntry → Bool
entry_eq a b =
    a.order_id == b.order_id
    && a.session_ref == b.session_ref
    && a.tag == b.tag
    && option_eq a.routing_hint b.routing_hint
    && option_eq a.native_session_id b.native_session_id
    && option_eq a.task_type b.task_type
    && same_flag a.resolved_zdr b.resolved_zdr
    && eqb a.sig_v b.sig_v
    && a.message_hash == b.message_hash
    && a.sent_at == b.sent_at
    && a.signature == b.signature
    && a.legacy.routing_hint_source == b.legacy.routing_hint_source
    && option_eq a.legacy.resolved_model b.legacy.resolved_model
    && option_eq a.legacy.resolved_harness b.legacy.resolved_harness
