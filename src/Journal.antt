-- ===== src/Journal.antt =====
-- src/chitra/journal: the canonical events that the response ladder reads (models.py), and the two
-- shapes of input that reaches a session in the middle of a turn (normalizers.py). Of
-- `CanonicalEvent` the fields are those that the modelled code reads.
use chitra.Prelude.{
  String, Bool, true, false, Option, none, some, if◌then◌else◌, truthy, Result, ok, ◌>>=◌,
}
use chitra.Json.{Json, Loads, LoadError, Fields, get, as_obj, as_text, is_text}

pub data CanonicalType : Type 0 where
  tool_call tool_result tool_error final_response compaction : CanonicalType
  resume user_input context unknown : CanonicalType

pub record CanonicalEvent : Type 0 where
  pub event_id : String
  pub lane : String
  pub session_id : String
  pub native_type : String
  pub normalized_type : CanonicalType
  pub payload : Fields
  pub raw_record : Option Fields

-- chained lookups: `none` as soon as a step is not an object
then_get : String → Option Fields → Option Json
then_get key none = none
then_get key (some f) = get key f

guarded : Bool → Option Fields → Option Fields
guarded false f = none
guarded true f = f

-- an attachment record of the given type
attachment_of : String → Option Fields → Option Fields
unfolding then_get guarded get
attachment_of kind record_fields =
    let attachment =
      guarded (is_text "attachment" (then_get "type" record_fields))
        (as_obj (then_get "attachment" record_fields)) in
    guarded (is_text kind (then_get "type" attachment)) attachment

has_origin : Option Fields → Bool
has_origin none = false
has_origin (some f) = true

unfoldable pub queued_operator_prompt : Option Fields → Option String
unfolding attachment_of then_get guarded has_origin
queued_operator_prompt record_fields =
    let attachment = attachment_of "queued_command" record_fields in
    as_text
      (then_get "prompt" (guarded (has_origin (as_obj (then_get "origin" attachment))) attachment))

non_empty : Option String → Option String
non_empty none = none
non_empty (some s) = if truthy s then some s else none

parsed : Loads → Option String → Result LoadError (Option Json)
parsed loads none = ok none
parsed loads (some s) = loads s

-- only `JSONDecodeError` is caught: another exception of `loads` escapes
unfoldable pub hook_additional_context : Loads → Option Fields → Result LoadError (Option String)
unfolding attachment_of then_get parsed non_empty
hook_additional_context loads record_fields =
    let stdout = as_text (then_get "stdout" (attachment_of "hook_success" record_fields)) in
    do
      payload ← parsed loads stdout
      let hook_output = as_obj (then_get "hookSpecificOutput" (as_obj payload))
      ok (non_empty (as_text (then_get "additionalContext" hook_output)))
