-- ===== src/Ladder/Examples.antt =====
-- A track from its first finding to its second stage.
use chitra.Prelude.{String, ◌≡◌, refl, true, none, some, List, [], ◌∷◌, ok, join}
use chitra.Journal.{CanonicalEvent}
use chitra.Incident.{nudge, redirect, Finding, IncidentRecord, track_key, entry_eq}
use chitra.Json.{get}
use chitra.Consumption.{discover_consumption_proof}
use chitra.Consumption.Examples.{plain, no_json, proof, asked, answered}
use chitra.IncidentStore.{
  Store, RescueEvidence, latest, opening, append, advanced_to, attach_consumption, newest_at,
  open_incident, advance_to_next_stage,
}
use chitra.Ladder.{LadderDecision, open_track, advance, evaluate}
use chitra.Ladder.Decisions.{Response, evaluate-Response}
use chitra.Ladder.History.{
  Step, evaluated, attached, Reach, start, then_step, IsMove, Step-IsMove, IsClimbed, no_rows,
  Reach-IsClimbed,
}

abbrev no_evidence : RescueEvidence
no_evidence = record { bundle_verified = λ r b. true; receipt_nonce = λ r b c. none }

abbrev empty : Store
empty = record { rows = []; consumed = [] }

abbrev finding : Finding
finding = record {
  detector = "idle";
  fingerprint = "fp";
  event_refs = "e2" ∷ [];
  unmet_item = "item";
  expected_next_progress = "a receipt";
  detail = "idle since e2";
}

abbrev journal : List CanonicalEvent
journal = asked ∷ answered ∷ []

abbrev id : String
id = track_key plain "g" "item"

abbrev first : IncidentRecord
first = opening plain "a" "g" finding "m" "t1"

abbrev opened : Store
opened = append plain first empty

first_decision : LadderDecision
first_decision = record {
  action = open_track;
  stage = nudge;
  incident = first;
  reason = "first finding on this unmet item under the frozen goal";
}

opens :
    evaluate no_json plain journal (some "k") "a" finding "m" "g" "t1" empty
    ≡ ok (first_decision, opened)
unfolding evaluate latest first_decision opening append open_incident
opens = refl

evaluate-Response_example :
    Response no_json plain journal
      (some "k")
      "a"
      finding
      "m"
      "g"
      "t1"
      empty
      (latest plain id empty)
      first_decision
      opened
evaluate-Response_example =
    evaluate-Response no_json plain journal (some "k") "a" finding "m" "g" "t1" empty first_decision
      opened opens

abbrev receipted : IncidentRecord
receipted = record first { consumption = some proof }

abbrev bound : Store
bound = append plain receipted opened

newest_first : latest plain id opened ≡ some first
unfolding latest opening append track_key
newest_first = refl

receipt_bound : attach_consumption plain id "m" proof opened ≡ ok (receipted, bound)
unfolding attach_consumption newest_at opening append track_key
receipt_bound = refl

abbrev second : IncidentRecord
second = advanced_to plain redirect receipted "m2" finding "t2"

abbrev second_decision : LadderDecision
second_decision = record {
  action = advance;
  stage = redirect;
  incident = second;
  reason = "a finding on the same unmet item recurred after proven consumption";
}

climbs :
    evaluate no_json plain journal (some "k") "a" finding "m2" "g" "t2" bound
    ≡ ok (second_decision, append plain second bound)
unfolding evaluate discover_consumption_proof entry_eq join get opening latest append track_key
    advance_to_next_stage advanced_to
climbs = refl

up : Step no_json plain no_evidence bound (append plain second bound)
up = evaluated journal (some "k") "a" finding "m2" "g" "t2" second_decision climbs

-- the receipt of the first order, bound once more after the climb
abbrev back : Store
back = append plain receipted (append plain second bound)

bound_again :
    attach_consumption plain id "m" proof (append plain second bound) ≡ ok (receipted, back)
unfolding attach_consumption newest_at opening append track_key advanced_to
bound_again = refl

down : Step no_json plain no_evidence (append plain second bound) back
down = attached id "m" proof receipted bound_again

Step-IsMove_example : IsMove no_json plain no_evidence id (append plain second bound) back
Step-IsMove_example = Step-IsMove no_json plain no_evidence id down

opening_step : Step no_json plain no_evidence empty opened
opening_step = evaluated journal (some "k") "a" finding "m" "g" "t1" first_decision opens

way : Reach no_json plain no_evidence empty back
way =
    then_step
      (then_step
        (then_step (then_step start opening_step) (attached id "m" proof receipted receipt_bound))
        up)
      down

Reach-IsClimbed_example : IsClimbed no_json plain no_evidence back.rows
Reach-IsClimbed_example = Reach-IsClimbed no_json plain no_evidence way no_rows
