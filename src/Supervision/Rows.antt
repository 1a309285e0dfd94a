-- ===== src/Supervision/Rows.antt =====
-- A row that is appended is read back, after the rows that were there.
use Prim.Native.String.{◌++◌ as append}
use chitra.Prelude.{
  String, ◌==◌, eq_iff, eq_refl, ◌≡◌, refl, sym, ap, ◌∙◌, ◌↔◌, Bool, true, false, not, ◌||◌, Option,
  none, some, List, [], ◌∷◌, ◌++◌, Result, ok, err, ◌>>=◌, ◌>>◌, eqb, truthy, select, arith,
  if◌then◌else◌, Bool-cases, inl, inr, require-ok, require-true, then-ok, ok_inj, subst,
}
use chitra.Prelude.Lines.{
  keep_lines, ends_line, row_line, finished, no_breaks, starts_lf, IsFinished, finished-row_line,
  finished-up_to_last_break, row_line_whole,
}
use chitra.Digest.{Digest}
use chitra.Supervision.{
  SupervisionRecord, SupervisionError, RowFormat, allowed_transition, no_text, last, link, chain,
  event_id, with_verified_event_id, read_row, load_row, load_rows, load, repair, expected_revision,
  follows, checked, contents, written, has_content, Disk, append_checked, append_row,
}

-- the check of a row after the last one
abbrev joins : Option SupervisionRecord → SupervisionRecord → Result SupervisionError (Unit {0})
joins none r = ok tt
joins (some p) r = link p r

abbrev pub IsChecked : Result SupervisionError (Unit {0}) → Type 0
IsChecked (ok u) = Unit
IsChecked (err e) = ⊥

pub two_checks :
    (m n : Result SupervisionError (Unit {0})) → (IsChecked m × IsChecked n) ↔ IsChecked (m >> n)
two_checks (ok u) n = (λ h. h.1, λ h. (tt, h))
two_checks (err e) n = (λ h. h.0, λ h. absurd h)

-- A checked chain, one link longer.
chain-append :
    (rs : List SupervisionRecord) (r : SupervisionRecord)
    → IsChecked (chain rs)
    → IsChecked (joins (last rs) r)
    → IsChecked (chain (rs ++ r ∷ []))
unfolding chain last
chain-append [] r h k = tt
chain-append (p ∷ []) r h k = (two_checks (link p r) (ok tt)).0 (k, tt)
chain-append (p ∷ q ∷ rest) r h k =
    let (l, c) = (two_checks (link p q) (chain (q ∷ rest))).1 h in
    (two_checks (link p q) (chain ((q ∷ rest) ++ r ∷ []))).0 (l, chain-append (q ∷ rest) r c k)

IsChecked-ok : (m : Result SupervisionError (Unit {0})) → IsChecked m → m ≡ ok tt
IsChecked-ok (ok tt) h = refl
IsChecked-ok (err e) h = absurd h

pub IsFinished-or_empty : (s : String) → (no_text s || ends_line s) ≡ true → IsFinished s
IsFinished-or_empty String.[] h = tt
IsFinished-or_empty (String.◌∷◌ c s) h = h

pub repair-finished :
    (file : Option String)
    → (finished (contents (repair file)) ≡ finished (contents file))
      × IsFinished (contents (repair file))
unfolding repair
repair-finished none = (refl, tt)
repair-finished (some s) = elim (Bool-cases (no_text s || ends_line s)) [
  | inl e ↦ rw e (refl, IsFinished-or_empty s e)
  | inr e ↦ rw e (finished-up_to_last_break s)
]

loaded_rows :
    (m : Result SupervisionError (List SupervisionRecord)) (rs : List SupervisionRecord)
    → (m >>= λ records. chain records >> ok records) ≡ ok rs
    → (m ≡ ok rs) × IsChecked (chain rs)
loaded_rows (err e) rs h = absurd cc
loaded_rows (ok records) rs h =
    let (c, e) = then-ok (chain records) (ok records) h in
    (e, subst (λ k. IsChecked (chain k)) (ok_inj e) (rw c tt))

one_more :
    (a b : Bool) (q : Result SupervisionError SupervisionRecord)
    (m : Result SupervisionError (List SupervisionRecord))
    (f : List SupervisionRecord → List SupervisionRecord)
    → ((s : SupervisionRecord) (rs : List SupervisionRecord) → f (s ∷ rs) ≡ s ∷ f rs)
    → (if not a
        then (m >>= λ rs. ok (f rs))
        else if not b
        then (m >>= λ rs. ok (f rs))
        else (q >>= λ r. (m >>= λ rs. ok (f rs)) >>= λ rs. ok (r ∷ rs)))
      ≡ ((if not a then m else if not b then m else (q >>= λ r. m >>= λ rs. ok (r ∷ rs))) >>= λ rs.
          ok (f rs))
one_more false b q m f h = refl
one_more true false q m f h = refl
one_more true true (err e) m f h = refl
one_more true true (ok r) (err e) f h = refl
one_more true true (ok r) (ok rs) f h = ap ok (sym (h r rs))

not_ok :
    {e : SupervisionError} {r : SupervisionRecord}
    → ◌≡◌ {A = Result SupervisionError SupervisionRecord} (err e) (ok r)
    → ⊥
not_ok h = cc

module _ (D : Digest) (R : RowFormat) (lane : String) where
  -- unfinished lines play no part
  pub load_rows-finished :
      (ls : List String) → load_rows D R lane ls ≡ load_rows D R lane (select ends_line ls)
  unfolding load_rows
  load_rows-finished [] = refl
  load_rows-finished (l ∷ ls) = elim (Bool-cases (ends_line l)) [
    | inl e ↦ rw (e, load_rows-finished ls, load_rows, e) refl
    | inr e ↦ rw (e, load_rows-finished ls) refl
  ]

  -- the line of a row that is read back
  record IsReadBack (l : String) (r : SupervisionRecord) : Type 0 where
    ended : ends_line l ≡ true
    shown : has_content l ≡ true
    loaded : load_row D R lane l ≡ ok r

  load_rows-append :
      (ls : List String) (l : String) (r : SupervisionRecord)
      → IsReadBack l r
      → load_rows D R lane (ls ++ l ∷ []) ≡ (load_rows D R lane ls >>= λ rs. ok (rs ++ r ∷ []))
  unfolding load_rows
  load_rows-append [] l r b = rw (b.ended, b.shown, b.loaded) refl
  load_rows-append (x ∷ ls) l r b = rw (load_rows-append ls l r b) (
      one_more (ends_line x) (has_content x) (load_row D R lane x) (load_rows D R lane ls)
        (λ rs. rs ++ r ∷ []) (λ s rs. refl))

  pub load-ok :
      (file : Option String) (rs : List SupervisionRecord)
      → load D R lane file ≡ ok rs
      → (load_rows D R lane (finished (contents file)) ≡ ok rs) × IsChecked (chain rs)
  unfolding load
  load-ok none rs h = unfold load_rows chain keep_lines in ground arith
  load-ok (some s) rs h =
      rw (← load_rows-finished (keep_lines s))
        (loaded_rows (load_rows D R lane (keep_lines s)) rs h)

  ok-load :
      (s : String) (rs : List SupervisionRecord)
      → load_rows D R lane (finished s) ≡ ok rs
      → IsChecked (chain rs)
      → load D R lane (some s) ≡ ok rs
  unfolding load
  ok-load s rs h c = rw (load_rows-finished (keep_lines s), h, IsChecked-ok (chain rs) c) refl

  -- what reading and writing keep of a row
  pub record IsRow (r : SupervisionRecord) : Type 0 where
    pub no_break : no_breaks (R.dump r) ≡ true
    pub begins : starts_lf (row_line (R.dump r)) ≡ false
    pub shown : has_content (row_line (R.dump r)) ≡ true
    pub read_back : R.read (row_line (R.dump r)) ≡ some r

  -- a row with its own event id, that agrees with another one in the rest
  record IsSettled (r r' : SupervisionRecord) : Type 0 where
    verified : with_verified_event_id D R r' ≡ ok r'
    same_lane : r'.lane ≡ r.lane
    same_revision : r'.revision ≡ r.revision
    same_session : r'.session_ref ≡ r.session_ref
    same_state : r'.state ≡ r.state

  verified_fixed :
      (r : SupervisionRecord)
      → with_verified_event_id D R (record r { event_id = event_id D R r })
        ≡ ok (record r { event_id = event_id D R r })
  unfolding with_verified_event_id
  verified_fixed r = elim (Bool-cases (truthy (event_id D R r))) [
    | inl e ↦ rw (e, eq_refl (event_id D R r)) refl
    | inr e ↦ rw e refl
  ]

  verified-IsSettled :
      (r : SupervisionRecord) {r' : SupervisionRecord}
      → with_verified_event_id D R r ≡ ok r'
      → IsSettled r r'
  verified-IsSettled r {r' = r'} h = elim (Bool-cases (truthy r.event_id)) [
    | inl e ↦ elim (Bool-cases (r.event_id == event_id D R r)) [
      | inl k ↦
          let same : r ≡ r' =
            ok_inj {E = SupervisionError} (unfold with_verified_event_id in rw (e, k) at h) in
          subst (IsSettled r) same (record {
            verified = unfold with_verified_event_id in rw (e, k) refl;
            same_lane = refl;
            same_revision = refl;
            same_session = refl;
            same_state = refl;
          })
      | inr k ↦ absurd (unfold with_verified_event_id in not_ok (rw (e, k) at h))
    ]
    | inr e ↦
        let same : record r { event_id = event_id D R r } ≡ r' =
          ok_inj {E = SupervisionError} (unfold with_verified_event_id in rw e at h) in
        subst (IsSettled r) same (record {
          verified = verified_fixed r;
          same_lane = refl;
          same_revision = refl;
          same_session = refl;
          same_state = refl;
        })
  ]

  joins_of :
      (previous : Option SupervisionRecord) (r r' : SupervisionRecord)
      → follows previous r ≡ ok tt
      → eqb r.revision (expected_revision previous) ≡ true
      → IsSettled r r'
      → IsChecked (joins previous r')
  unfolding link follows expected_revision
  joins_of none r r' f n s = tt
  joins_of (some p) r r' f n s =
      let (a, f1) = require-ok (r.session_ref == p.session_ref) _ _ f in
      let b = require-true (allowed_transition p.state r.state) _ f1 in
      rw (s.same_revision, s.same_session, s.same_state, n, a, b) tt

  checked-joins :
      (previous : Option SupervisionRecord) (r : SupervisionRecord) {r' : SupervisionRecord}
      → checked D R lane previous r ≡ ok r'
      → IsChecked (joins previous r') × (r'.lane ≡ lane) × (with_verified_event_id D R r' ≡ ok r')
  unfolding checked
  checked-joins previous r {r' = r'} h =
      let (l, h1) = require-ok (r.lane == lane) _ _ h in
      let (n, h2) = require-ok (eqb r.revision (expected_revision previous)) _ _ h1 in
      let (f, h3) = then-ok (follows previous r) _ h2 in
      let s = verified-IsSettled r h3 in
      (joins_of previous r r' f n s, s.same_lane ∙ (eq_iff r.lane lane).0 l, s.verified)

  load_row-IsRow :
      (r : SupervisionRecord)
      → IsRow r
      → r.lane ≡ lane
      → with_verified_event_id D R r ≡ ok r
      → load_row D R lane (row_line (R.dump r)) ≡ ok r
  unfolding load_row read_row
  load_row-IsRow r w l v = rw (w.read_back, v, (eq_iff r.lane lane).1 l) refl

  load-written :
      (file : Option String) (r : SupervisionRecord) (rs : List SupervisionRecord)
      → load D R lane file ≡ ok rs
      → IsRow r
      → IsChecked (joins (last rs) r)
      → load_row D R lane (row_line (R.dump r)) ≡ ok r
      → load D R lane (some (append (contents (repair file)) (row_line (R.dump r))))
        ≡ ok (rs ++ r ∷ [])
  load-written file r rs h w j l =
      let (same, complete) = repair-finished file in
      let (rows, c) = load-ok file rs h in
      let lines =
        finished-row_line (contents (repair file)) (R.dump r) complete w.no_break w.begins in
      let added =
        load_rows-append (finished (contents (repair file))) (row_line (R.dump r)) r (record {
          ended = (row_line_whole (R.dump r) w.no_break).1;
          shown = w.shown;
          loaded = l;
        }) in
      ok-load (append (contents (repair file)) (row_line (R.dump r))) (rs ++ r ∷ [])
        (ap (load_rows D R lane) lines ∙ added ∙ rw (same, rows) refl) (chain-append rs r c j)

  -- a checked row whose reading and writing agree is read back from the repaired file
  pub load-checked :
      (file : Option String) (r : SupervisionRecord) (rs : List SupervisionRecord)
      {r' : SupervisionRecord}
      → load D R lane file ≡ ok rs
      → checked D R lane (last rs) r ≡ ok r'
      → IsRow r'
      → load D R lane (some (append (contents (repair file)) (row_line (R.dump r'))))
        ≡ ok (rs ++ r' ∷ [])
  load-checked file r rs {r' = r'} h c w =
      let (j, l, v) = checked-joins (last rs) r c in
      load-written file r' rs h w j (load_row-IsRow r' w l v)

  read_back_written :
      (cut : Option String) (file : Option String) (r : SupervisionRecord)
      (rs : List SupervisionRecord) {r' : SupervisionRecord}
      (q : Result SupervisionError SupervisionRecord)
      → load D R lane file ≡ ok rs
      → checked D R lane (last rs) r ≡ q
      → (written D R lane cut (repair file) q).0 ≡ ok r'
      → IsRow r'
      → load D R lane (written D R lane cut (repair file) q).1 ≡ ok (rs ++ r' ∷ [])
  unfolding written
  read_back_written cut file r rs (err e) h c k w = absurd (not_ok k)
  read_back_written (some part) file r rs (ok q) h c k w = absurd (not_ok k)
  read_back_written none file r rs {r' = r'} (ok q) h c k w =
      let same : q ≡ r' = ok_inj {E = SupervisionError} k in
      rw same (load-checked file r rs h (c ∙ ap ok same) w)

  -- When the log loads and an append returns a row whose reading and writing agree, the file it
  -- leaves loads as the rows before and then that row.
  pub load-append_row :
      (d : Disk) (file : Option String) (r : SupervisionRecord) (rs : List SupervisionRecord)
      {r' : SupervisionRecord}
      → load D R lane file ≡ ok rs
      → (append_row D R lane d file r).0 ≡ ok r'
      → IsRow r'
      → load D R lane (append_row D R lane d file r).1 ≡ ok (rs ++ r' ∷ [])
  unfolding append_row append_checked
  load-append_row d file r rs h k w = elim (Bool-cases d.repair_fails) [
    | inl f ↦ absurd (not_ok (rw (h, append_checked, f) at k))
    | inr f ↦
        rw (h, append_checked, f)
          (read_back_written d.cut_after file r rs (checked D R lane (last rs) r) h refl
            (rw (h, append_checked, f) at k) w)
  ]
