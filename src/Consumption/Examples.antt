-- ===== src/Consumption/Examples.antt =====
-- A delivered order, the session's answer, and the proof that is found.
use chitra.Prelude.{◌≡◌, refl, false, none, [], ◌∷◌, ok, join}
use Prim.Native.String.{◌++◌ as append}
use chitra.Digest.{Digest}
use chitra.Json.{Loads, field, end, text, get}
use chitra.Ledger.{LedgerEntry, no_legacy}
use chitra.Journal.{CanonicalEvent, user_input, final_response}
use chitra.Incident.{ConsumptionProof}
use chitra.Consumption.{Delivery, discover_delivery_consumption_proof}

abbrev pub plain : Digest
plain = record { sha256 = λ s. s; hmac_sha256 = λ key text. append key text; json_quote = λ s. s }

abbrev pub no_json : Loads
no_json s = ok none

abbrev pub entry : LedgerEntry
entry = record {
  order_id = "o1";
  session_ref = "s";
  tag = "[C]";
  routing_hint = none;
  native_session_id = none;
  task_type = none;
  resolved_zdr = false;
  sig_v = 4;
  message_hash = "m go";
  sent_at = "t";
  signature = "kt|s|[C]|m go|||0";
  legacy = no_legacy;
}

abbrev pub asked : CanonicalEvent
asked = record {
  event_id = "e1";
  lane = "a";
  session_id = "s";
  native_type = "user";
  normalized_type = user_input;
  payload = field "text" (text "m go") end;
  raw_record = none;
}

abbrev pub answered : CanonicalEvent
answered = record asked {
  event_id = "e2";
  native_type = "assistant";
  normalized_type = final_response;
}

abbrev delivery : Delivery no_json plain
delivery = record {
  lane = "a";
  session_ref = "s";
  order_marker = "m";
  ledger_entry = entry;
  ledger_key = "k";
  stored = none;
}

abbrev pub proof : ConsumptionProof
proof = record {
  ledger_entry = entry;
  ledger_key_hex = "k";
  session_ref = "s";
  native_session_id = "s";
  user_event_id = "e1";
  turn_event_id = "e2";
}

not_answered : discover_delivery_consumption_proof no_json plain delivery (asked ∷ []) ≡ ok none
unfolding discover_delivery_consumption_proof join get
not_answered = refl
