-- ===== src/IncidentStore/Examples.antt =====
-- Instances of the incident-log theorems.
use chitra.Prelude.{
  ℕ, String, ◌≡◌, refl, true, false, inl, is_ok, here, there, ◌≤◌, arith, Option, none, some, List,
  [], ◌∷◌, ◌++◌, ok, err,
}
use chitra.Incident.{rescue, Finding, IncidentRecord, v2, track_key}
use chitra.Consumption.Examples.{plain, proof}
use chitra.IncidentStore.{
  Store, value_error, latest, newest_at, attach_consumption, consume_receipt_and_seal,
  load_consumed_checkpoints, check_receipt, opening, latest_by_fingerprint, is_safe_ref, is_hex64,
}
use chitra.IncidentStore.Laws.{attach_at_marker}
use chitra.IncidentStore.Receipts.{Attempt, IsSound, seal_all, seal_all-IsSound, crash_fails_closed}

abbrev empty : Store
empty = record { rows = []; consumed = [] }

abbrev finding : Finding
finding = record {
  detector = "idle";
  fingerprint = "fp";
  event_refs = "e2" ∷ [];
  unmet_item = "item";
  expected_next_progress = "a receipt";
  detail = "idle since e2";
}

abbrev opened : IncidentRecord
opened = record (opening plain "a" "g" finding "m1" "t1") { stage = rescue }

abbrev id : String
id = track_key plain "g" "item"

-- the record at the old marker, and one that was opened later on the same track
abbrev older : IncidentRecord
older = opening plain "a" "g" finding "m0" "t0"

abbrev two : Store
two = record { rows = v2 older ∷ v2 opened ∷ []; consumed = [] }

older_found : newest_at plain id "m0" two ≡ some older
unfolding newest_at opening track_key
older_found = refl

newest_is_later : latest plain id two ≡ some opened
unfolding latest opening track_key
newest_is_later = refl

by_fingerprint : latest_by_fingerprint plain "fp" two ≡ some (v2 opened)
unfolding latest_by_fingerprint opening
by_fingerprint = refl

references : (is_safe_ref "ck-1.a" ≡ true) × (is_hex64 "ff" ≡ chitra.Prelude.false)
unfolding is_safe_ref is_hex64
references = (refl, refl)

attach_at_marker_example :
    (r : IncidentRecord) × (s' : Store) × (attach_consumption plain id "m0" proof two ≡ ok (r, s'))
    × (latest plain id s' ≡ some r)
    × (r.stage ≡ older.stage)
attach_at_marker_example =
    attach_at_marker plain id "m0" proof two older (unfold opening in refl) older_found

abbrev attempts : List Attempt
attempts =
    record { incident = opened; ref = "ck-1"; nonce = "n-1"; dies = true }
    ∷ record { incident = opened; ref = "ck-1"; nonce = "n-2"; dies = false }
    ∷ []

seal_all-IsSound_example : IsSound plain 2 0 (seal_all plain attempts two)
seal_all-IsSound_example =
    seal_all-IsSound plain 2 0 attempts two ((refl, refl), ((refl, refl), tt))
      (record { named = tt; distinct = tt; at_most_one_each = omega arith })

crash_fails_closed_example :
    consume_receipt_and_seal plain opened "ck-1" "n-9"
      (some (none ∷ some ("ck-1", "n-1") ∷ some ("ck-2", "n-2") ∷ []))
      two
    ≡ err (value_error "checkpoint receipt was already consumed; a receipt seals exactly once")
crash_fails_closed_example =
    crash_fails_closed plain "ck-1" "n-1" (none ∷ some ("ck-1", "n-1") ∷ some ("ck-2", "n-2") ∷ [])
      two opened "ck-1" "n-9" refl refl (there here) (inl refl)

-- The log was read before another lane, under its own lock, spent the same receipt: both seal.
abbrev spent_elsewhere : Store
spent_elsewhere = record { rows = v2 opened ∷ []; consumed = ("ck-1", "n-1") ∷ [] }

two_lanes :
    is_ok (consume_receipt_and_seal plain opened "ck-1" "n-1" (some []) spent_elsewhere) ≡ true
unfolding consume_receipt_and_seal check_receipt load_consumed_checkpoints latest opening track_key
two_lanes = refl

-- an unreadable log, and one with a torn line
unreadable : load_consumed_checkpoints plain none ≡ []
unfolding load_consumed_checkpoints
unreadable = refl

torn_skipped :
    load_consumed_checkpoints plain (some (none ∷ some ("ck-1", "n-1") ∷ [])) ≡ ("ck-1", "n-1") ∷ []
unfolding load_consumed_checkpoints
torn_skipped = refl
