-- ===== src/Ladder/History.antt =====
-- The history of a pressure track: how the log grows under evaluations, receipts and seals.
use chitra.Prelude.{
  String, truthy, ◌≡◌, refl, sym, ap, ◌∙◌, ◌==◌, ◌⊎◌, inl, inr, eq_iff, true, Option, none, some,
  List, [], ◌∷◌, ◌++◌, ok, Bool-cases, is_some, subst, In, In-append, In-append-or, In-one,
}
use chitra.Digest.{Digest}
use chitra.Json.{Loads}
use chitra.Journal.{CanonicalEvent}
use chitra.Incident.{
  nudge, rescue, Finding, ConsumptionProof, IncidentRecord, Row, v2, legacy, next_stage, track_key,
  track_id,
}
use chitra.IncidentStore.{
  Store, RescueEvidence, latest, append, opening, advanced_to, attach_consumption,
  seal_rescue_checkpoint,
}
use chitra.IncidentStore.Laws.{
  latest-append, latest-track_id, latest-consumed, newest_at-In, latest-In,
  attach_consumption-IsAttach, seal_rescue_checkpoint-IsSeal,
}
use chitra.Ladder.{LadderDecision, evaluate}
use chitra.Ladder.Decisions.{IsOpen, IsClimb, Response, evaluate-Response}

module _ (loads : Loads) (D : Digest) (V : RescueEvidence) where
  -- One use of the log, taken as one step: an evaluation of a finding, the receipt of an order at any
  -- marker of any track, or a seal at any marker, which other uses may separate from the load of its
  -- record. Journal, key, texts and times are arbitrary.
  pub data Step (s s' : Store) : Type 0 where
    evaluated :
        (events : List CanonicalEvent) (key : Option String) (lane : String) (f : Finding)
        (marker goal_digest now : String) (d : LadderDecision)
        → evaluate loads D events key lane f marker goal_digest now s ≡ ok (d, s')
        → Step s s'
    attached :
        (id marker : String) (proof : ConsumptionProof) (r : IncidentRecord)
        → attach_consumption D id marker proof s ≡ ok (r, s')
        → Step s s'
    sealed :
        (id marker bundle ref : String) (r : IncidentRecord) (at_load : Store) (since : List Row)
        (log : Option (List (Option (String × String))))
        → s.rows ≡ at_load.rows ++ since
        → seal_rescue_checkpoint D V id marker bundle ref at_load log s ≡ ok (r, s')
        → Step s s'

  pub data Reach (s : Store) : Store → Type 0 where
    start : Reach s s
    then_step : {t u : Store} → Reach s t → Step t u → Reach s u

  -- The record from which a stage was reached: on the same track, one stage below, with a consumption
  -- proof, and sealed with bundle and checkpoint where relaunch was reached.
  pub record IsBase (r q : IncidentRecord) : Type 0 where
    pub track : track_id D q ≡ track_id D r
    pub below : next_stage q.stage ≡ some r.stage
    pub consumed : is_some q.consumption ≡ true
    pub sealed_first :
        q.stage ≡ rescue → (truthy q.rescue_bundle_sha256 ≡ true) × (truthy q.checkpoint_ref ≡ true)

  -- a record above the first stage has its base among the rows `before` it
  abbrev pub IsSupported : List Row → Row → Type 0
  IsSupported before (v2 r) =
      (r.stage ≡ nudge) ⊎ ((q : IncidentRecord) × In (v2 q) before × IsBase r q)
  IsSupported before (legacy r) = Unit

  -- a log in which every row was supported when it was appended
  pub data IsClimbed : List Row → Type 0 where
    no_rows : IsClimbed []
    one_more :
        (rows : List Row) (x : Row)
        → IsClimbed rows
        → IsSupported rows x
        → IsClimbed (rows ++ x ∷ [])

  -- what holds of a row's support holds of it in a longer log
  IsSupported-append :
      (before : List Row) (x : Row) (more : List Row)
      → IsSupported before x
      → IsSupported (before ++ more) x
  IsSupported-append before (legacy r) more h = tt
  IsSupported-append before (v2 r) more (inl first) = inl first
  IsSupported-append before (v2 r) more (inr (q, i, b)) = inr (q, In-append more i, b)

  -- a copy of a record is supported where the record is
  IsSupported-copy :
      (before : List Row) (t r : IncidentRecord)
      → r.stage ≡ t.stage
      → track_id D r ≡ track_id D t
      → IsSupported before (v2 t)
      → IsSupported before (v2 r)
  IsSupported-copy before t r e k (inl first) = inl (e ∙ first)
  IsSupported-copy before t r e k (inr (q, i, b)) = inr (
    q,
    i,
    record {
      track = b.track ∙ sym k;
      below = b.below ∙ ap some (sym e);
      consumed = b.consumed;
      sealed_first = b.sealed_first;
    },
  )

  support-In : {rows : List Row} → IsClimbed rows → (x : Row) → In x rows → IsSupported rows x
  support-In no_rows x i = elim i [ ]
  support-In (one_more rows y c h) x i = elim (In-append-or rows i) [
    | inl j ↦ IsSupported-append rows x (y ∷ []) (support-In c x j)
    | inr j ↦
        subst (IsSupported (rows ++ y ∷ [])) (sym (In-one j)) (IsSupported-append rows y (y ∷ []) h)
  ]

  open-IsSupported :
      (events : List CanonicalEvent) (key : Option String) (lane : String) (f : Finding)
      (marker goal_digest now : String) (s s' : Store) (d : LadderDecision)
      → IsOpen loads D events key lane f marker goal_digest now s d s'
      → IsSupported s.rows (v2 d.incident)
  unfolding opening
  open-IsSupported events key lane f marker goal_digest now s s' d o =
      inl (ap (λ (z : IncidentRecord). z.stage) o.incident)

  climb-IsBase :
      (events : List CanonicalEvent) (key : Option String) (lane : String) (f : Finding)
      (marker goal_digest now : String) (s s' : Store) (r : IncidentRecord) (d : LadderDecision)
      → IsClimb loads D events key lane f marker goal_digest now s r d s'
      → IsBase d.incident r
  unfolding advanced_to
  climb-IsBase events key lane f marker goal_digest now s s' r d c = record {
    track = sym (ap (track_id D) c.incident);
    below = c.stage ∙ ap some (sym (ap (λ (z : IncidentRecord). z.stage) c.incident));
    consumed = c.consumed;
    sealed_first = c.sealed;
  }

  respond-IsClimbed :
      (o : Option IncidentRecord) (events : List CanonicalEvent) (key : Option String)
      (lane : String) (f : Finding) (marker goal_digest now : String) (s s' : Store)
      (d : LadderDecision)
      → latest D (track_key D goal_digest f.unmet_item) s ≡ o
      → Response loads D events key lane f marker goal_digest now s o d s'
      → IsClimbed s.rows
      → IsClimbed s'.rows
  unfolding append
  respond-IsClimbed none events key lane f marker goal_digest now s s' d l o c =
      subst (λ (z : Store). IsClimbed z.rows) (sym o.appended)
        (one_more s.rows (v2 d.incident) c
          (open-IsSupported events key lane f marker goal_digest now s s' d o))
  respond-IsClimbed (some t) events key lane f marker goal_digest now s s' d l (inl stays) c =
      subst (λ (z : Store). IsClimbed z.rows) (sym stays.unchanged) c
  respond-IsClimbed (some t) events key lane f marker goal_digest now s s' d l (inr up) c =
      subst (λ (z : Store). IsClimbed z.rows) (sym up.appended)
        (one_more s.rows (v2 d.incident) c (
          inr (
            t,
            latest-In D (track_key D goal_digest f.unmet_item) s l,
            climb-IsBase events key lane f marker goal_digest now s s' t d up,
          )))

  -- a copy of a record of the log, with a proof or a seal added
  copied-IsClimbed :
      (s : Store) (t r : IncidentRecord)
      → r.stage ≡ t.stage
      → track_id D r ≡ track_id D t
      → In (v2 t) s.rows
      → IsClimbed s.rows
      → IsClimbed (s.rows ++ v2 r ∷ [])
  copied-IsClimbed s t r e k i c =
      one_more s.rows (v2 r) c (IsSupported-copy s.rows t r e k (support-In c (v2 t) i))

  Step-IsClimbed : {s s' : Store} → Step s s' → IsClimbed s.rows → IsClimbed s'.rows
  unfolding append
  Step-IsClimbed {s} {s'} (evaluated events key lane f marker goal_digest now d e) c =
      respond-IsClimbed (latest D (track_key D goal_digest f.unmet_item) s) events key lane f marker
        goal_digest now s s' d refl
        (evaluate-Response loads D events key lane f marker goal_digest now s d s' e) c
  Step-IsClimbed {s} {s'} (attached id marker proof r e) c =
      let (t, l, a) = attach_consumption-IsAttach D id marker proof s s' r e in
      subst (λ (z : Store). IsClimbed z.rows) (sym a.appended)
        (copied-IsClimbed s t r (ap (λ (z : IncidentRecord). z.stage) a.incident)
          (ap (track_id D) a.incident) (newest_at-In D id marker s l).0 c)
  Step-IsClimbed {s} {s'} (sealed id marker bundle ref r at_load since log grown e) c =
      let (t, l, (nonce, a)) =
        seal_rescue_checkpoint-IsSeal D V id marker bundle ref at_load s s' log r e in
      subst (λ (z : Store). IsClimbed z.rows) (sym a.appended)
        (copied-IsClimbed s t r (ap (λ (z : IncidentRecord). z.stage) a.incident)
          (ap (track_id D) a.incident)
          (subst (In (v2 t)) (sym grown) (In-append since (newest_at-In D id marker at_load l).0))
          c)

  -- However a log grows from one whose rows were supported (the empty log is), each v2 row above the
  -- first stage was appended after a record of the same track, one stage below, that had a consumption
  -- proof, and for relaunch bundle and checkpoint: no track reaches a stage without the one below.
  pub Reach-IsClimbed : {s s' : Store} → Reach s s' → IsClimbed s.rows → IsClimbed s'.rows
  Reach-IsClimbed start c = c
  Reach-IsClimbed (then_step before st) c = Step-IsClimbed st (Reach-IsClimbed before c)

  -- how the newest record of a track may change in one step
  pub data IsMove (id : String) (s s' : Store) : Type 0 where
    unmoved : latest D id s' ≡ latest D id s → IsMove id s s'
    opened :
        {r : IncidentRecord}
        → latest D id s ≡ none
        → latest D id s' ≡ some r
        → r.stage ≡ nudge
        → IsMove id s s'
    climbed :
        {q r : IncidentRecord}
        → latest D id s ≡ some q
        → latest D id s' ≡ some r
        → IsBase r q
        → IsMove id s s'
    copied :
        {t r : IncidentRecord}
        → In (v2 t) s.rows
        → track_id D t ≡ id
        → latest D id s' ≡ some r
        → r ≡ record t {
          consumption = r.consumption;
          rescue_bundle_sha256 = r.rescue_bundle_sha256;
          checkpoint_ref = r.checkpoint_ref;
        }
        → IsMove id s s'

  -- an appended record moves its own track alone
  appended-IsMove :
      (id : String) (s s0 : Store) (r : IncidentRecord)
      → latest D id s0 ≡ latest D id s
      → (track_id D r ≡ id → latest D id (append D r s0) ≡ some r → IsMove id s (append D r s0))
      → IsMove id s (append D r s0)
  appended-IsMove id s s0 r same f = elim (Bool-cases (track_id D r == id)) [
    | inl e ↦ f ((eq_iff (track_id D r) id).0 e) (latest-append D id r s0 ∙ (rw e refl))
    | inr e ↦ unmoved (latest-append D id r s0 ∙ (rw e same))
  ]

  respond-IsMove :
      (id : String) (o : Option IncidentRecord) (events : List CanonicalEvent) (key : Option String)
      (lane : String) (f : Finding) (marker goal_digest now : String) (s s' : Store)
      (d : LadderDecision)
      → latest D (track_key D goal_digest f.unmet_item) s ≡ o
      → Response loads D events key lane f marker goal_digest now s o d s'
      → IsMove id s s'
  unfolding opening
  respond-IsMove id none events key lane f marker goal_digest now s s' d l o =
      subst (IsMove id s) (sym o.appended) (
        appended-IsMove id s s d.incident refl (λ here now_at.
          opened (ap (λ k. latest D k s) (sym here ∙ ap (track_id D) o.incident) ∙ l) now_at
            (ap (λ (z : IncidentRecord). z.stage) o.incident)))
  respond-IsMove id (some t) events key lane f marker goal_digest now s s' d l (inl stays) =
      unmoved (ap (latest D id) stays.unchanged)
  respond-IsMove id (some t) events key lane f marker goal_digest now s s' d l (inr up) =
      let base = climb-IsBase events key lane f marker goal_digest now s s' t d up in
      let track = latest-track_id D (track_key D goal_digest f.unmet_item) s l in
      subst (IsMove id s) (sym up.appended) (
        appended-IsMove id s s d.incident refl (λ here now_at.
          climbed (ap (λ k. latest D k s) (sym here ∙ sym base.track ∙ track) ∙ l) now_at base))

  -- Whatever the step, the newest record of every track stays, opens the track at the first stage,
  -- goes up one stage from a consumed record (into relaunch from a sealed one), or is replaced by a
  -- copy of a record that the track already has, with another proof or seal.
  pub Step-IsMove : {s s' : Store} (id : String) → Step s s' → IsMove id s s'
  Step-IsMove {s} {s'} id (evaluated events key lane f marker goal_digest now d e) =
      respond-IsMove id (latest D (track_key D goal_digest f.unmet_item) s) events key lane f marker
        goal_digest now s s' d refl
        (evaluate-Response loads D events key lane f marker goal_digest now s d s' e)
  Step-IsMove {s} {s'} id (attached k marker proof r e) =
      let (t, l, a) = attach_consumption-IsAttach D k marker proof s s' r e in
      subst (IsMove id s) (sym a.appended) (
        appended-IsMove id s s r refl (λ here now_at.
          copied (newest_at-In D k marker s l).0 (sym (ap (track_id D) a.incident) ∙ here) now_at
            (cc a.incident)))
  Step-IsMove {s} {s'} id (sealed k marker bundle ref r at_load since log grown e) =
      let (t, l, (nonce, a)) =
        seal_rescue_checkpoint-IsSeal D V k marker bundle ref at_load s s' log r e in
      subst (IsMove id s) (sym a.appended) (
        appended-IsMove id s (record s { consumed = s.consumed ++ (ref, nonce) ∷ [] }) r
          (latest-consumed D id s (s.consumed ++ (ref, nonce) ∷ []))
          (λ here now_at.
            copied
              (subst (In (v2 t)) (sym grown)
                (In-append since (newest_at-In D k marker at_load l).0))
              (sym (ap (track_id D) a.incident) ∙ here) now_at (cc a.incident)))
