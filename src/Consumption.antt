-- ===== src/Consumption.antt =====
-- src/chitra/detect/ladder.py: the proof that a session consumed a delivered order. A key is
-- the text of its bytes. Checking an entry of an unsupported signature version or with a signature
-- that is not ASCII raises, and so does reading an event whose hook output `json.loads` gives up on.
pub mod Laws
pub mod Examples
use Prim.Native.String.{◌++◌ as append}
use chitra.Prelude.{
  ℕ, suc, String, ◌==◌, Bool, true, false, not, ◌&&◌, ◌||◌, Option, none, some, List, [], ◌∷◌,
  reverse, find, find_map, if◌then◌else◌, is_some, truthy, contains, join, Result, ok, err, ◌>>=◌,
}
use chitra.Digest.{Digest}
use chitra.Json.{
  Json, Loads, LoadError, Items, Fields, get, as_obj, as_text, is_true, text, arr, obj, nil, cons,
}
use chitra.Ledger.{LedgerEntry, LedgerError, verify_entry, message_hash}
use chitra.Journal.{
  CanonicalEvent, CanonicalType, tool_call, tool_result, tool_error, final_response,
  hook_additional_context, queued_operator_prompt,
}
use chitra.Incident.{ConsumptionProof, IncidentRecord, entry_eq}

abbrev pub is_final : CanonicalType → Bool
is_final final_response = true
is_final _ = false

-- the four types that are never input
abbrev never_input : CanonicalType → Bool
never_input tool_call = true
never_input tool_result = true
never_input tool_error = true
never_input final_response = true
never_input _ = false

-- the texts of the blocks of a message's content
block_texts : Items → List String
block_texts nil = []
block_texts (cons (obj block) rest) =
    let others = block_texts rest in
    elim (as_text (get "text" block)) [ none ↦ others | some t ↦ t ∷ others ]
block_texts (cons _ rest) = block_texts rest

content_text : Option Json → String
unfolding block_texts
content_text (some (text s)) = s
content_text (some (arr items)) = join "\n" (block_texts items)
content_text _ = ""

message_text : Option Fields → String
unfolding content_text
message_text none = ""
message_text (some message) = content_text (get "content" message)

-- the first of the two that is there
abbrev or_else : Option String → String → String
or_else none s = s
or_else (some t) s = t

-- what a look-up raises, or the ledger
pub data ConsumptionError : Type 0 where
  ledger_error : LedgerError → ConsumptionError
  load_error : LoadError → ConsumptionError

-- the text that is there, else the reading that follows
abbrev or_read : Option String → Result LoadError String → Result LoadError String
or_read none r = r
or_read (some t) r = ok t

module _ (loads : Loads) where
  raw_text : Option Fields → Result LoadError String
  unfolding message_text
  raw_text none = ok ""
  raw_text (some raw) = or_read (queued_operator_prompt (some raw)) (do
    hooked ← hook_additional_context loads (some raw)
    ok (or_else hooked (message_text (as_obj (get "message" raw)))))

  pub payload_text : CanonicalEvent → Result LoadError String
  unfolding raw_text
  payload_text event = or_read (as_text (get "text" event.payload)) (raw_text event.raw_record)

  is_compact_summary : Option Fields → Bool
  is_compact_summary none = false
  is_compact_summary (some raw) = is_true (get "isCompactSummary" raw)

  -- input of the user, or that reached a busy session, and no summary of a compaction
  pub is_input : CanonicalEvent → Result LoadError Bool
  unfolding is_compact_summary
  is_input event =
      let kept =
        not (never_input event.normalized_type) && not (is_compact_summary event.raw_record) in
      if event.native_type == "user" || is_some (queued_operator_prompt event.raw_record)
      then ok kept
      else (do hooked ← hook_additional_context loads event.raw_record; ok (is_some hooked && kept))

  pub next_final_boundary : List CanonicalEvent → String
  next_final_boundary [] = ""
  next_final_boundary (event ∷ rest) =
      if is_final event.normalized_type then event.event_id else next_final_boundary rest

  -- `{event.event_id: event for event in events}.get(id)`: the last one wins
  pub event_by_id : List CanonicalEvent → String → Option CanonicalEvent
  event_by_id events id = find (λ e. e.event_id == id) (reverse events)

  module _ (D : Digest) where
    pub record Delivery : Type 0 where
      pub lane : String
      pub session_ref : String
      pub order_marker : String
      pub ledger_entry : LedgerEntry
      pub ledger_key : String
      pub stored : Option ConsumptionProof

    abbrev or_text : Option String → String → String
    or_text none s = s
    or_text (some t) s = if truthy t then t else s

    -- `ledger_entry.native_session_id or ledger_entry.session_ref`
    pub native_session : LedgerEntry → String
    native_session e = or_text e.native_session_id e.session_ref

    pins_user : Option ConsumptionProof → String → Bool
    pins_user none id = true
    pins_user (some p) id = id == p.user_event_id

    pins_turn : Option ConsumptionProof → String → Bool
    pins_turn none id = true
    pins_turn (some p) id = id == p.turn_event_id

    in_session : Delivery → Option CanonicalEvent → Bool
    unfolding native_session
    in_session d none = false
    in_session d (some e) = e.lane == d.lane && e.session_id == native_session d.ledger_entry

    -- may this event be the one that brought the order?
    user_matches : Delivery → CanonicalEvent → Result LoadError Bool
    unfolding pins_user in_session payload_text is_input message_hash
    user_matches d e =
        if pins_user d.stored e.event_id && in_session d (some e)
        then (do
          input ← is_input e
          if input
              then (do
                user_text ← payload_text e
                ok (
                    truthy user_text
                    && contains d.order_marker user_text
                    && d.ledger_entry.message_hash == message_hash D user_text))
              else ok false)
        else ok false

    turn_matches : Delivery → List CanonicalEvent → String → Bool
    unfolding pins_turn in_session event_by_id
    turn_matches d events turn =
        truthy turn && in_session d (event_by_id events turn) && pins_turn d.stored turn

    proof_of : Delivery → String → String → ConsumptionProof
    unfolding native_session
    proof_of d user turn = record {
      ledger_entry = d.ledger_entry;
      ledger_key_hex = D.sha256 d.ledger_key;
      session_ref = d.ledger_entry.session_ref;
      native_session_id = native_session d.ledger_entry;
      user_event_id = user;
      turn_event_id = turn;
    }

    -- The loop: `events` is the whole journal, the last argument what is left of it.
    pub search_events :
        Delivery
        → List CanonicalEvent
        → List CanonicalEvent
        → Result LoadError (Option ConsumptionProof)
    unfolding user_matches turn_matches proof_of next_final_boundary
    search_events d events [] = ok none
    search_events d events (e ∷ rest) =
        let later = search_events d events rest in
        do
          matched ← user_matches d e
          if matched && turn_matches d events (next_final_boundary rest)
              then ok (some (proof_of d e.event_id (next_final_boundary rest)))
              else later

    -- does the stored proof speak of this delivery?
    stored_agrees : Delivery → Option ConsumptionProof → Bool
    unfolding native_session entry_eq
    stored_agrees d none = true
    stored_agrees d (some p) =
        entry_eq p.ledger_entry d.ledger_entry
        && (p.ledger_key_hex == "" || p.ledger_key_hex == D.sha256 d.ledger_key)
        && p.session_ref == d.ledger_entry.session_ref
        && p.native_session_id == native_session d.ledger_entry

    searched :
        Result LoadError (Option ConsumptionProof)
        → Result ConsumptionError (Option ConsumptionProof)
    searched (err x) = err (load_error x)
    searched (ok found) = ok found

    after_checks :
        Delivery
        → List CanonicalEvent
        → Result LedgerError Bool
        → Result ConsumptionError (Option ConsumptionProof)
    unfolding stored_agrees search_events searched
    after_checks d events (err x) = err (ledger_error x)
    after_checks d events (ok verified) =
        if verified
          && d.ledger_entry.session_ref == d.session_ref
          && truthy (native_session d.ledger_entry)
          && stored_agrees d d.stored
        then searched (search_events d events events)
        else ok none

    pub discover_delivery_consumption_proof :
        Delivery → List CanonicalEvent → Result ConsumptionError (Option ConsumptionProof)
    unfolding after_checks verify_entry
    discover_delivery_consumption_proof d events =
        if truthy d.ledger_key && truthy d.order_marker
        then after_checks d events (verify_entry D d.ledger_entry d.ledger_key)
        else ok none

    unfoldable pub discover_consumption_proof :
        IncidentRecord
        → List CanonicalEvent
        → LedgerEntry
        → String
        → Result ConsumptionError (Option ConsumptionProof)
    unfolding discover_delivery_consumption_proof
    discover_consumption_proof r events entry key =
        if truthy entry.session_ref
        then discover_delivery_consumption_proof
            (record {
              lane = r.lane;
              session_ref = entry.session_ref;
              order_marker = r.order_marker;
              ledger_entry = entry;
              ledger_key = key;
              stored = r.consumption;
            })
            events
        else ok none
