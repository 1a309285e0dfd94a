-- ===== src/IncidentStore/Laws.antt =====
-- How the newest record of a track changes when a row is appended.
use chitra.Prelude.{
  Option, String, ◌≡◌, refl, sym, ap, ◌∙◌, ◌==◌, eq_iff, true, some, List, [], ◌∷◌, ◌++◌, reverse,
  if◌then◌else◌, find_map-reverse-append, find_map_sound, arith, ok, Option-cases, inl, inr, ◌≢◌,
  is_some, is_ok, In, find_map-reverse-In, subst, true,
}
use chitra.Digest.{Digest}
use chitra.Incident.{
  Finding, ConsumptionProof, IncidentRecord, Row, v2, legacy, track_id, next_stage, rescue,
  relaunch,
}
use chitra.IncidentStore.{
  Store, on_track, on_marker, latest, newest_at, append, attach_consumption, attach_to,
  seal_rescue_checkpoint, prepare_seal, RescueEvidence, advance_to_next_stage, advance_target,
  advanced_to,
}

module _ (D : Digest) where
  pub latest-append :
      (id : String) (r : IncidentRecord) (s : Store)
      → latest D id (append D r s) ≡ (if track_id D r == id then some r else latest D id s)
  unfolding latest append
  latest-append id r s =
      find_map-reverse-append (on_track D id) s.rows (v2 r) ∙ (unfold on_track in ground arith)

  on_track-id :
      (id : String) (x : Row) (r : IncidentRecord) → on_track D id x ≡ some r → track_id D r ≡ id
  unfolding on_track
  on_track-id id (v2 q) r h = ground (arith, eq_iff (track_id D q) id, eq_iff (track_id D r) id)
  on_track-id id (legacy q) r h = cc

  pub latest-track_id :
      (id : String) (s : Store) {r : IncidentRecord} → latest D id s ≡ some r → track_id D r ≡ id
  unfolding latest
  latest-track_id id s h =
      find_map_sound (λ (r : IncidentRecord). track_id D r ≡ id) (on_track D id) (reverse s.rows)
        (on_track-id id) h

  on_track-row : (id : String) (x : Row) (r : IncidentRecord) → on_track D id x ≡ some r → x ≡ v2 r
  unfolding on_track
  on_track-row id (v2 q) r h = ground arith
  on_track-row id (legacy q) r h = cc

  -- the newest record of a track stands in the log
  pub latest-In :
      (id : String) (s : Store) {r : IncidentRecord} → latest D id s ≡ some r → In (v2 r) s.rows
  unfolding latest
  latest-In id s {r} h =
      let (x, i, e) = find_map-reverse-In (on_track D id) s.rows h in
      subst (λ z. In z s.rows) (on_track-row id x r e) i

  on_marker-row :
      (id marker : String) (x : Row) (r : IncidentRecord)
      → on_marker D id marker x ≡ some r
      → (x ≡ v2 r) × (track_id D r ≡ id)
  unfolding on_marker
  on_marker-row id marker (v2 q) r h =
      (ground arith, ground (arith, eq_iff (track_id D q) id, eq_iff (track_id D r) id))
  on_marker-row id marker (legacy q) r h = cc

  -- a record that is found at a marker is one of the track, and stands in the log
  pub newest_at-In :
      (id marker : String) (s : Store) {r : IncidentRecord}
      → newest_at D id marker s ≡ some r
      → In (v2 r) s.rows × (track_id D r ≡ id)
  unfolding newest_at
  newest_at-In id marker s {r} h =
      let (x, i, e) = find_map-reverse-In (on_marker D id marker) s.rows h in
      let (same, track) = on_marker-row id marker x r e in (subst (λ z. In z s.rows) same i, track)

  pub record IsAdvance (t : IncidentRecord) (marker : String) (f : Finding) (now : String)
      (s : Store) (r : IncidentRecord) (s' : Store) : Type 0 where
    pub consumed : is_some t.consumption ≡ true
    pub stage : next_stage t.stage ≡ some r.stage
    pub moved : r ≡ advanced_to D r.stage t marker f now
    pub appended : s' ≡ append D r s

  advance_target-IsAdvance :
      (t : IncidentRecord) (marker : String) (f : Finding) (now : String) (s : Store)
      (r : IncidentRecord) (s' : Store)
      → advance_target D (some t) marker f now s ≡ ok (r, s')
      → IsAdvance t marker f now s r s'
  unfolding advance_target advanced_to
  advance_target-IsAdvance t marker f now s r s' h = ground arith

  -- An advance that succeeds moves the newest record of the track, and only a consumed one.
  pub advance_to_next_stage-IsAdvance :
      (id marker : String) (f : Finding) (now : String) (s s' : Store) (t r : IncidentRecord)
      → latest D id s ≡ some t
      → advance_to_next_stage D id marker f now s ≡ ok (r, s')
      → IsAdvance t marker f now s r s'
  unfolding advance_to_next_stage
  advance_to_next_stage-IsAdvance id marker f now s s' t r l h =
      advance_target-IsAdvance t marker f now s r s'
        (sym (ap (λ o. advance_target D o marker f now s) l) ∙ h)

  advance_target-ok :
      (t : IncidentRecord) (marker : String) (f : Finding) (now : String) (s : Store)
      → is_some t.consumption ≡ true
      → t.stage ≢ relaunch
      → is_ok (advance_target D (some t) marker f now s) ≡ true
  unfolding advance_target
  advance_target-ok t marker f now s c n = ground arith

  -- A consumed record below the last stage can always be advanced.
  pub advance_to_next_stage-ok :
      (id marker : String) (f : Finding) (now : String) (s : Store) (t : IncidentRecord)
      → latest D id s ≡ some t
      → is_some t.consumption ≡ true
      → t.stage ≢ relaunch
      → is_ok (advance_to_next_stage D id marker f now s) ≡ true
  unfolding advance_to_next_stage
  advance_to_next_stage-ok id marker f now s t l c n =
      ap (λ o. is_ok (advance_target D o marker f now s)) l ∙ advance_target-ok t marker f now s c n

  -- What `attach_consumption` writes.
  pub record IsAttach (t : IncidentRecord) (proof : ConsumptionProof) (s : Store)
      (r : IncidentRecord) (s' : Store) : Type 0 where
    pub incident : r ≡ record t { consumption = some proof }
    pub appended : s' ≡ append D r s

  attach_to-IsAttach :
      (t : IncidentRecord) (proof : ConsumptionProof) (s s' : Store) (r : IncidentRecord)
      → attach_to D (some t) proof s ≡ ok (r, s')
      → IsAttach t proof s r s'
  unfolding attach_to
  attach_to-IsAttach t proof s s' r h = ground arith

  -- The record at the marker is the one that is bound.
  pub attach_consumption-IsAttach :
      (id marker : String) (proof : ConsumptionProof) (s s' : Store) (r : IncidentRecord)
      → attach_consumption D id marker proof s ≡ ok (r, s')
      → (t : IncidentRecord) × (newest_at D id marker s ≡ some t) × IsAttach t proof s r s'
  unfolding attach_consumption attach_to
  attach_consumption-IsAttach id marker proof s s' r h =
      elim (Option-cases (newest_at D id marker s)) [
        | inl n ↦ absurd (ground arith)
        | inr (t, n) ↦
            (t, n, attach_to-IsAttach t proof s s' r (sym (ap (λ o. attach_to D o proof s) n) ∙ h))
      ]

  -- What a seal writes: the record of the rescue stage with its two references, in the log of rows,
  -- and the receipt in the log of consumed ones.
  pub record IsSeal (t : IncidentRecord) (bundle ref nonce : String) (s : Store)
      (r : IncidentRecord) (s' : Store) : Type 0 where
    pub incident : r ≡ record t { rescue_bundle_sha256 = bundle; checkpoint_ref = ref }
    pub stage : t.stage ≡ rescue
    pub consumed : is_some t.consumption ≡ true
    pub appended : s' ≡ append D r (record s { consumed = s.consumed ++ (ref, nonce) ∷ [] })

  prepared-IsSeal :
      (V : RescueEvidence) (id marker bundle ref : String) (at_load s s' : Store)
      (log : Option (List (Option (String × String)))) (t r : IncidentRecord)
      → newest_at D id marker at_load ≡ some t
      → seal_rescue_checkpoint D V id marker bundle ref at_load log s ≡ ok (r, s')
      → (nonce : String) × IsSeal t bundle ref nonce s r s'
  unfolding seal_rescue_checkpoint
  prepared-IsSeal V id marker bundle ref at_load s s' log t r l h =
      elim (Option-cases (V.receipt_nonce t bundle ref)) [
        | inl none_given ↦ ("", ground arith)
        | inr (nonce, given) ↦ (nonce, ground arith)
      ]

  -- A seal that returns is one of the record that its load found at the marker.
  pub seal_rescue_checkpoint-IsSeal :
      (V : RescueEvidence) (id marker bundle ref : String) (at_load s s' : Store)
      (log : Option (List (Option (String × String)))) (r : IncidentRecord)
      → seal_rescue_checkpoint D V id marker bundle ref at_load log s ≡ ok (r, s')
      → (t : IncidentRecord) × (newest_at D id marker at_load ≡ some t)
        × ((nonce : String) × IsSeal t bundle ref nonce s r s')
  unfolding seal_rescue_checkpoint prepare_seal
  seal_rescue_checkpoint-IsSeal V id marker bundle ref at_load s s' log r h =
      elim (Option-cases (newest_at D id marker at_load)) [
        | inl n ↦ absurd (ground arith)
        | inr (t, n) ↦ (t, n, prepared-IsSeal V id marker bundle ref at_load s s' log t r n h)
      ]

  -- the log of receipts does not matter to a lookup
  pub latest-consumed :
      (id : String) (s : Store) (log : List (String × String))
      → latest D id (record s { consumed = log }) ≡ latest D id s
  unfolding latest
  latest-consumed id s log = refl

  -- Binding a consumption at any marker of a track, an old one too, makes the record at that marker
  -- the newest of the track again, at its own stage.
  pub attach_at_marker :
      (id marker : String) (proof : ConsumptionProof) (s : Store) (t : IncidentRecord)
      → track_id D t ≡ id
      → newest_at D id marker s ≡ some t
      → (r : IncidentRecord) × (s' : Store) × (attach_consumption D id marker proof s ≡ ok (r, s'))
        × (latest D id s' ≡ some r)
        × (r.stage ≡ t.stage)
  unfolding attach_consumption
  attach_at_marker id marker proof s t same l =
      let r = record t { consumption = some proof } in
      (
        r,
        append D r s,
        ap (λ o. attach_to D o proof s) l ∙ (unfold attach_to in refl),
        latest-append id r s ∙ (rw ((eq_iff (track_id D r) id).1 same)),
        refl,
      )
