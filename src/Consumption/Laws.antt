-- ===== src/Consumption/Laws.antt =====
-- A consumption proof is found only for a signed delivery whose whole text reached the session, and
-- that the session answered.
use chitra.Prelude.{
  String, ◌≡◌, Bool, true, ◌&&◌, Option, none, some, List, ◌∷◌, ◌++◌, ok, contains, truthy, ◌==◌,
}
use chitra.Digest.{Digest}
use chitra.Json.{Loads}
use chitra.Ledger.{message_hash}
use chitra.Journal.{CanonicalEvent}
use chitra.Incident.{ConsumptionProof}
use chitra.Consumption.{
  payload_text, is_input, next_final_boundary, event_by_id, Delivery, native_session, pins_user,
}

module _ (loads : Loads) (D : Digest) (d : Delivery loads D) where
  open d use {lane, ledger_entry, ledger_key, stored}

  -- an event of the delivery's lane and native session
  pub record IsBound (e : CanonicalEvent) : Type 0 where
    pub same_lane : e.lane ≡ lane
    pub same_session : e.session_id ≡ native_session loads D ledger_entry

  -- an input event that carries the signed text, marker included
  pub record IsReceipt (e : CanonicalEvent) : Type 0 where
    pub bound : IsBound e
    pub input : is_input loads e ≡ ok true
    pub user_text : String
    pub carried : payload_text loads e ≡ ok user_text
    pub marked : contains d.order_marker user_text ≡ true
    pub signed_text : ledger_entry.message_hash ≡ message_hash D user_text

  -- a stored proof that the new one repeats
  pub record IsPinned (p q : ConsumptionProof) : Type 0 where
    pub user_event_id : p.user_event_id ≡ q.user_event_id
    pub turn_event_id : p.turn_event_id ≡ q.turn_event_id

  abbrev pub Pinned : ConsumptionProof → Option ConsumptionProof → Type 0
  Pinned p none = Unit
  Pinned p (some q) = IsPinned p q

  text_matches : String → Bool
  text_matches t =
      truthy t && contains d.order_marker t && ledger_entry.message_hash == message_hash D t

  -- an event that matches, taken apart
  record IsMatch (e : CanonicalEvent) : Type 0 where
    pins : pins_user loads D stored e.event_id ≡ true
    receipt : IsReceipt e

  module _ (events : List CanonicalEvent) where
    -- the bound event that a turn's id names
    pub record HasTurn (turn : String) : Type 0 where
      pub event : CanonicalEvent
      pub named : event_by_id loads events turn ≡ some event
      pub bound : IsBound event

    -- What a proof says: a receipt stands in the journal, the first final response after it is the
    -- turn, both belong to the delivery's lane and session, and the proof repeats a stored one.
    pub record IsConsumption (left : List CanonicalEvent) (p : ConsumptionProof) : Type 0 where
      pub before : List CanonicalEvent
      pub receipt : CanonicalEvent
      pub after : List CanonicalEvent
      pub split : left ≡ before ++ receipt ∷ after
      pub is_receipt : IsReceipt receipt
      pub user_event_id : p.user_event_id ≡ receipt.event_id
      pub turn_event_id : p.turn_event_id ≡ next_final_boundary loads after
      pub turn : HasTurn p.turn_event_id
      pub pinned : Pinned p stored
      pub ledger_entry : p.ledger_entry ≡ d.ledger_entry
