-- ===== src/Ladder/Decisions.antt =====
-- What `evaluate` decides, case by case.
use chitra.Prelude.{
  String, ◌≡◌, refl, ◌==◌, ◌⊎◌, inl, inr, Bool, true, false, not, ◌&&◌, ◌||◌, Option, none, some,
  List, ok, arith, Bool-cases, Result-cases, is_some, truthy,
}
use chitra.Digest.{Digest}
use chitra.Json.{Loads}
use chitra.Journal.{CanonicalEvent}
use chitra.Incident.{nudge, rescue, Finding, IncidentRecord, next_stage, track_key}
use chitra.IncidentStore.{
  Store, latest, append, opening, advanced_to, open_incident, advance_to_next_stage,
}
use chitra.IncidentStore.Laws.{IsAdvance, advance_to_next_stage-IsAdvance}
use chitra.Ladder.{
  LadderDecision, open_track, hold, advance, consumption_proven, climb_if, respond, evaluate,
  is_relaunch, needs_seal,
}

module _ (loads : Loads) (D : Digest) (events : List CanonicalEvent) (key : Option String)
    (lane : String) (f : Finding) (marker goal_digest now : String) (s : Store) where
  abbrev pub the_track : String
  the_track = track_key D goal_digest f.unmet_item

  -- no record yet: a nudge is opened
  pub record IsOpen (d : LadderDecision) (s' : Store) : Type 0 where
    pub action : d.action ≡ open_track
    pub incident : d.incident ≡ opening D lane goal_digest f marker now
    pub stage : d.stage ≡ nudge
    pub appended : s' ≡ append D d.incident s

  -- nothing moves
  pub record IsHold (r : IncidentRecord) (d : LadderDecision) (s' : Store) : Type 0 where
    pub action : d.action ≡ hold
    pub incident : d.incident ≡ r
    pub stage : d.stage ≡ r.stage
    pub unchanged : s' ≡ s

  -- one stage up
  pub record IsClimb (r : IncidentRecord) (d : LadderDecision) (s' : Store) : Type 0 where
    pub action : d.action ≡ advance
    pub consumed : is_some r.consumption ≡ true
    pub proven : consumption_proven loads D events key r f ≡ ok true
    pub sealed :
        r.stage ≡ rescue → (truthy r.rescue_bundle_sha256 ≡ true) × (truthy r.checkpoint_ref ≡ true)
    pub stage : next_stage r.stage ≡ some d.stage
    pub incident : d.incident ≡ advanced_to D d.stage r marker f now
    pub appended : s' ≡ append D d.incident s

  abbrev pub Response : Option IncidentRecord → LadderDecision → Store → Type 0
  Response none d s' = IsOpen d s'
  Response (some r) d s' = IsHold r d s' ⊎ IsClimb r d s'

  climb_if-IsClimb :
      (r : IncidentRecord) (d : LadderDecision) (m : IncidentRecord) (s1 s' : Store)
      → IsAdvance D r marker f now s m s1
      → consumption_proven loads D events key r f ≡ ok true
      → advance_to_next_stage D the_track marker f now s ≡ ok (m, s1)
      → climb_if loads D events key true r the_track f marker now s ≡ ok (d, s')
      → IsHold r d s' ⊎ IsClimb r d s'
  unfolding climb_if
  climb_if-IsClimb r d m s1 s' a p e h =
      elim (Bool-cases (
        needs_seal loads D events key r.stage
        && (not (truthy r.rescue_bundle_sha256) || not (truthy r.checkpoint_ref)))) [
          | inl unsealed ↦ inl (ground arith)
          | inr ready ↦ inr (ground (arith, a.stage, a.consumed, a.moved, a.appended))
        ]

  climb_if-Response :
      (r : IncidentRecord) (d : LadderDecision) (s' : Store) (proven : Bool)
      → latest D the_track s ≡ some r
      → consumption_proven loads D events key r f ≡ ok proven
      → climb_if loads D events key proven r the_track f marker now s ≡ ok (d, s')
      → IsHold r d s' ⊎ IsClimb r d s'
  unfolding climb_if
  climb_if-Response r d s' false l p h = inl (ground arith)
  climb_if-Response r d s' true l p h =
      elim (Result-cases (advance_to_next_stage D the_track marker f now s)) [
        | inl (x, e) ↦ inl (ground arith)
        | inr (m, e) ↦
            climb_if-IsClimb r d m.0 m.1 s'
              (advance_to_next_stage-IsAdvance D the_track marker f now s m.1 r m.0 l e) p e h
      ]

  respond-Response :
      (o : Option IncidentRecord) (d : LadderDecision) (s' : Store)
      → latest D the_track s ≡ o
      → respond loads D events key o the_track lane f marker goal_digest now s ≡ ok (d, s')
      → Response o d s'
  unfolding respond open_incident
  respond-Response none d s' l h = ground arith
  respond-Response (some r) d s' l h = elim (Bool-cases (is_relaunch loads D events key r.stage)) [
    | inl top ↦ inl (ground arith)
    | inr below ↦ elim (Result-cases (consumption_proven loads D events key r f)) [
      | inl (x, e) ↦ inl (ground arith)
      | inr (p, e) ↦ climb_if-Response r d s' p l e (ground arith)
    ]
  ]

  -- Every evaluation that returns does one of three things. With no record on the track it opens one,
  -- at the first stage. With a record it holds and changes nothing, or it moves that record exactly one
  -- stage up, appending one row; it moves only when the record's order was proven consumed, and out of
  -- the rescue stage only when bundle and checkpoint are sealed.
  pub evaluate-Response :
      (d : LadderDecision) (s' : Store)
      → evaluate loads D events key lane f marker goal_digest now s ≡ ok (d, s')
      → Response (latest D the_track s) d s'
  unfolding evaluate
  evaluate-Response d s' h = elim (Bool-cases (goal_digest == "")) [
    | inl empty ↦ absurd (ground arith)
    | inr given ↦ respond-Response (latest D the_track s) d s' refl (ground arith)
  ]
