-- ===== src/Supervision/Crashes.antt =====
-- What a reader sees after a failed append, or one that is cut off within its row.
use Prim.Native.String.{◌++◌ as append}
use text.Mathlib.TextLemmas.{cons-append}
use chitra.Prelude.{
  String, ◌≡◌, refl, sym, ap, ◌∙◌, true, Option, none, some, List, Result, ok, err, ◌>>=◌, ◌>>◌,
  Result-cases, inl, inr, arith, ◌⊎◌, Bool-cases, [], ◌∷◌, ◌++◌,
}
use chitra.Prelude.Lines.{keep_lines, finished, no_breaks, finished-append, row_line}
use chitra.Digest.{Digest}
use chitra.Supervision.{
  SupervisionRecord, SupervisionError, RowFormat, chain, load_rows, load, repair, contents, last,
  checked, written, Disk, append_checked, append_row,
}
use chitra.Supervision.Rows.{load_rows-finished, repair-finished, load-checked, IsRow}

not_err :
    {r : SupervisionRecord} {e : SupervisionError}
    → ◌≡◌ {A = Result SupervisionError SupervisionRecord} (ok r) (err e)
    → ⊥
not_err h = cc

no_breaks_left : (p q : String) → no_breaks (append p q) ≡ true → no_breaks p ≡ true
no_breaks_left String.[] q h = refl
no_breaks_left (String.◌∷◌ c p) q h =
    ground (arith, ap no_breaks (cons-append c p q), h, no_breaks_left p q)

module _ (D : Digest) (R : RowFormat) (lane : String) where
  load_lines : List String → Result SupervisionError (List SupervisionRecord)
  load_lines ls = do records ← load_rows D R lane ls; chain records; ok records

  -- what a file loads as hangs on its finished lines alone
  load-finished :
      (file : Option String) → load D R lane file ≡ load_lines (finished (contents file))
  unfolding load load_lines
  load-finished none = unfold load_rows chain keep_lines in refl
  load-finished (some s) = rw (load_rows-finished D R lane (keep_lines s)) refl

  load-repair : (file : Option String) → load D R lane (repair file) ≡ load D R lane file
  load-repair file =
      load-finished (repair file)
      ∙ ap load_lines (repair-finished file).0
      ∙ sym (load-finished file)

  -- However much of a row is written when the process dies, the log loads as it did before.
  pub torn_append :
      (file : Option String) (r : SupervisionRecord) (written_part rest : String)
      → append written_part rest ≡ R.dump r
      → no_breaks (R.dump r) ≡ true
      → load D R lane (some (append (contents (repair file)) written_part)) ≡ load D R lane file
  torn_append file r p q e n =
      let (same, complete) = repair-finished file in
      let clean = no_breaks_left p q (ap no_breaks e ∙ n) in
      load-finished (some (append (contents (repair file)) p))
      ∙ ap load_lines (finished-append (contents (repair file)) p complete clean ∙ same)
      ∙ sym (load-finished file)

  -- What is in the file when a call raises is a part of the row's text, or its whole line.
  abbrev pub IsCut : String → SupervisionRecord → Type 0
  IsCut part q = ((rest : String) × (append part rest ≡ R.dump q)) ⊎ (part ≡ row_line (R.dump q))

  -- The file loads as before; or the whole line was written, and it loads as before and that row.
  pub data IsKept (cut_after : Option String) (file file' : Option String) : Type 0 where
    as_before : load D R lane file' ≡ load D R lane file → IsKept cut_after file file'
    with_row :
        (rs : List SupervisionRecord) (q : SupervisionRecord)
        → cut_after ≡ some (row_line (R.dump q))
        → load D R lane file ≡ ok rs
        → load D R lane file' ≡ ok (rs ++ q ∷ [])
        → IsKept cut_after file file'

  cut-IsKept :
      (cut : Option String) (file : Option String) (r : SupervisionRecord)
      (rs : List SupervisionRecord) (part : String) (q : SupervisionRecord)
      → load D R lane file ≡ ok rs
      → cut ≡ some part
      → checked D R lane (last rs) r ≡ ok q
      → IsRow D R lane q
      → IsCut part q
      → IsKept cut file (some (append (contents (repair file)) part))
  cut-IsKept cut file r rs part q h c k w (inl (rest, e)) =
      as_before (torn_append file q part rest e w.no_break)
  cut-IsKept cut file r rs part q h c k w (inr whole) = with_row rs q (c ∙ ap some whole) h (
      ap (λ p. load D R lane (some (append (contents (repair file)) p))) whole
      ∙ load-checked D R lane file r rs h k w)

  written-IsKept :
      (file : Option String) (r : SupervisionRecord) (rs : List SupervisionRecord)
      (e : SupervisionError) (cut : Option String) (m : Result SupervisionError SupervisionRecord)
      → load D R lane file ≡ ok rs
      → checked D R lane (last rs) r ≡ m
      → ((q : SupervisionRecord) → m ≡ ok q → IsRow D R lane q)
      → ((part : String) (q : SupervisionRecord) → cut ≡ some part → m ≡ ok q → IsCut part q)
      → (written D R lane cut (repair file) m).0 ≡ err e
      → IsKept cut file (written D R lane cut (repair file) m).1
  unfolding written
  written-IsKept file r rs e cut (err x) h k w p raised = as_before (load-repair file)
  written-IsKept file r rs e none (ok q) h k w p raised = absurd (not_err raised)
  written-IsKept file r rs e (some part) (ok q) h k w p raised =
      cut-IsKept (some part) file r rs part q h refl k (w q refl) (p part q refl refl)

  -- An append that raises, in a check or in a call of the operating system, leaves a log that loads as
  -- it did before; only when the row's whole line was written before `os.fsync` raised, as before and
  -- then that row. What is written is a part of the line of the checked row, whose reading and writing
  -- agree.
  pub failed_append :
      (d : Disk) (file : Option String) (r : SupervisionRecord) (e : SupervisionError)
      → ((rs : List SupervisionRecord) (q : SupervisionRecord)
          → load D R lane file ≡ ok rs
          → checked D R lane (last rs) r ≡ ok q
          → IsRow D R lane q × ((part : String) → d.cut_after ≡ some part → IsCut part q))
      → (append_row D R lane d file r).0 ≡ err e
      → IsKept d.cut_after file (append_row D R lane d file r).1
  unfolding append_row append_checked
  failed_append d file r e p h = elim (Result-cases (load D R lane file)) [
    | inl (x, k) ↦ rw (k, append_checked) (as_before refl)
    | inr (rs, k) ↦ elim (Bool-cases d.repair_fails) [
      | inl f ↦ rw (k, append_checked, f) (as_before refl)
      | inr f ↦
          rw (k, append_checked, f)
            (written-IsKept file r rs e d.cut_after (checked D R lane (last rs) r) k refl
              (λ q m. (p rs q k m).0) (λ part q c m. (p rs q k m).1 part c)
              (rw (k, append_checked, f) at h))
    ]
  ]
