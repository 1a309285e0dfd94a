-- ===== src/CompletionText/Extraction.antt =====
-- What a pane's text can claim by itself: never a passing result.
use chitra.Prelude.{
  String, ◌==◌, true, false, Option, none, some, List, [], ◌∷◌, ◌++◌, All, All-append, ok, err,
  Result, refl, ◌≡◌, ◌∙◌, inl, inr, if◌then◌else◌, Bool-cases, Result-cases, is_ok, is_some, truthy,
  any, In, here, there, strip, strip_idem, splitlines, drop_prefix, ap, ◌>>=◌,
}
use chitra.Json.{Json, Loads, LoadError, Fields, end, field, get, as_obj}
use chitra.CompletionGate.{
  Lexicon, EvidenceKind, CompletionEvidence, EnrolledDoneWhenItem, GateError, completion_evidence,
  require_completion_receipts,
}
use chitra.CompletionGate.Receipts.{
  completion_evidence-validator_result, completion_evidence-ok, unproven_refused,
}
use chitra.CompletionText.{
  EvidenceKey, payload_text, evidence_from, has_binding, known_fields, kind_field, citation_field,
  optional_field, key_of, key_eq, without, result_field, model_validate, parse_fields, cited,
  add_kinds, kinds_of, line_evidence, extract_lines, ExtractionError, gate_error, load_error, gated,
  evidence_of, parse_structured_completion_evidence, extract_completion_evidence,
}

get-without : (name : String) (f : Fields) → get name (without name f) ≡ none
unfolding get without
get-without name end = refl
get-without name (field key v rest) = elim (Bool-cases (key == name)) [
  | inl e ↦ rw e (get-without name rest)
  | inr e ↦ rw (e, get, e) (get-without name rest)
]

-- an evidence with no result, or an error
abbrev pub IsUnproven : Result GateError CompletionEvidence → Type 0
IsUnproven (ok e) = e.validator_result ≡ none
IsUnproven (err x) = Unit

completion_evidence-IsUnproven :
    (e : CompletionEvidence) → e.validator_result ≡ none → IsUnproven (completion_evidence e)
completion_evidence-IsUnproven e h = elim (Result-cases (completion_evidence e)) [
  | inl (x, k) ↦ rw k tt
  | inr (f, k) ↦ rw k (completion_evidence-validator_result e k ∙ h)
]

evidence_from-IsUnproven :
    (a : Result GateError EvidenceKind) (b : Result GateError String)
    (c d e f : Result GateError (Option String))
    → IsUnproven (evidence_from a b c d e f (ok none))
unfolding evidence_from
evidence_from-IsUnproven (err x) b c d e f = tt
evidence_from-IsUnproven (ok a) (err x) c d e f = tt
evidence_from-IsUnproven (ok a) (ok b) (err x) d e f = tt
evidence_from-IsUnproven (ok a) (ok b) (ok c) (err x) e f = tt
evidence_from-IsUnproven (ok a) (ok b) (ok c) (ok d) (err x) f = tt
evidence_from-IsUnproven (ok a) (ok b) (ok c) (ok d) (ok e) (err x) = tt
evidence_from-IsUnproven (ok a) (ok b) (ok c) (ok d) (ok e) (ok f) =
    completion_evidence-IsUnproven _ refl

model_validate-IsUnproven :
    (f : Fields) → get "validator_result" f ≡ none → IsUnproven (model_validate f)
unfolding model_validate result_field
model_validate-IsUnproven f h = elim (Bool-cases (known_fields f)) [
  | inl k ↦
      rw (k, h)
        (evidence_from-IsUnproven (kind_field (get "kind" f)) (citation_field (get "citation" f))
          (optional_field (get "todo_item" f)) (optional_field (get "done_when_item_id" f))
          (optional_field (get "receipt_name" f)) (optional_field (get "validator" f)))
  | inr k ↦ rw k tt
]

abbrev pub IsUnprovenLine : Option CompletionEvidence → Type 0
IsUnprovenLine none = Unit
IsUnprovenLine (some e) = e.validator_result ≡ none

returned :
    (r : Result GateError CompletionEvidence)
    → IsUnproven r
    → IsUnprovenLine (elim r [ ok e ↦ some e | err x ↦ none ])
returned (ok e) h = h
returned (err x) h = tt

parse_fields-IsUnprovenLine : (o : Option Fields) → IsUnprovenLine (parse_fields o)
unfolding parse_fields
parse_fields-IsUnprovenLine none = tt
parse_fields-IsUnprovenLine (some f) = elim (Bool-cases (has_binding f)) [
  | inl k ↦ rw k (
      returned (model_validate (without "validator_result" f)) (
        model_validate-IsUnproven (without "validator_result" f)
          (get-without "validator_result" f)))
  | inr k ↦ rw k tt
]

-- evidence with no result, and no error
abbrev pub AllUnproven : List CompletionEvidence → Type 0
AllUnproven = All (λ e. e.validator_result ≡ none)

abbrev AreUnproven : Result GateError (List CompletionEvidence × List EvidenceKey) → Type 0
AreUnproven (ok (es, seen)) = AllUnproven es
AreUnproven (err x) = ⊥

first_with_rest :
    (r : Result GateError CompletionEvidence)
    (q : Result GateError (List CompletionEvidence × List EvidenceKey))
    → is_ok r ≡ true
    → IsUnproven r
    → AreUnproven q
    → AreUnproven (do e ← r; (es, after) ← q; ok (e ∷ es, after))
first_with_rest (ok e) (ok (es, after)) h u k = (u, k)
first_with_rest (ok e) (err x) h u k = absurd k
first_with_rest (err x) q h u k = absurd cc

module _ (loads : Loads) (L : Lexicon) where
  add_kinds-AreUnproven :
      (line : String) (ks : List EvidenceKind) (seen : List EvidenceKey)
      → truthy line ≡ true
      → truthy (strip line) ≡ true
      → AreUnproven (add_kinds loads L line ks seen)
  unfolding add_kinds
  add_kinds-AreUnproven line [] seen h j = tt
  add_kinds-AreUnproven line (k ∷ ks) seen h j =
      elim (Bool-cases (any (key_eq (key_of (cited loads L k line))) seen)) [
        | inl e ↦ rw e (add_kinds-AreUnproven line ks seen h j)
        | inr e ↦ rw e (
            first_with_rest (completion_evidence (cited loads L k line))
              (add_kinds loads L line ks (key_of (cited loads L k line) ∷ seen))
              (unfold cited in completion_evidence-ok k line h j)
              (completion_evidence-IsUnproven (cited loads L k line) (unfold cited in refl))
              (add_kinds-AreUnproven line ks (key_of (cited loads L k line) ∷ seen) h j))
      ]

  -- a line that is parsed, or on which `json.loads` raised
  abbrev IsParsed : String → Result LoadError (Option CompletionEvidence) → Type 0
  IsParsed line (ok o) = IsUnprovenLine o
  IsParsed line (err x) = loads (payload_text line) ≡ err x

  loaded-IsParsed :
      (line : String) (r : Result LoadError (Option Json))
      → loads (payload_text line) ≡ r
      → IsParsed line (do payload ← r; ok (parse_fields (as_obj payload)))
  loaded-IsParsed line (err x) h = h
  loaded-IsParsed line (ok payload) h = parse_fields-IsUnprovenLine (as_obj payload)

  parse-IsParsed : (line : String) → IsParsed line (parse_structured_completion_evidence loads line)
  unfolding parse_structured_completion_evidence
  parse-IsParsed line = elim (Bool-cases (is_some (drop_prefix "{" (payload_text line)))) [
    | inl e ↦ rw e (loaded-IsParsed line (loads (payload_text line)) refl)
    | inr e ↦ rw e tt
  ]

  abbrev IsLine :
      String → Result ExtractionError (List CompletionEvidence × List EvidenceKey) → Type 0
  IsLine line (ok (es, seen)) = AllUnproven es
  IsLine line (err (gate_error x)) = ⊥
  IsLine line (err (load_error x)) = loads (payload_text line) ≡ err x

  gated-IsLine :
      (line : String) (r : Result GateError (List CompletionEvidence × List EvidenceKey))
      → AreUnproven r
      → IsLine line (gated loads L r)
  unfolding gated
  gated-IsLine line (ok (es, seen)) h = h
  gated-IsLine line (err x) h = absurd h

  structured-IsLine :
      (line : String) (e : CompletionEvidence) (seen : List EvidenceKey)
      → e.validator_result ≡ none
      → IsLine line
          (if any (key_eq (key_of e)) seen then ok ([], seen) else ok (e ∷ [], key_of e ∷ seen))
  structured-IsLine line e seen h = elim (Bool-cases (any (key_eq (key_of e)) seen)) [
    | inl k ↦ rw k tt
    | inr k ↦ rw k (h, tt)
  ]

  evidence_of-IsLine :
      (line : String) (seen : List EvidenceKey) (o : Result LoadError (Option CompletionEvidence))
      → IsParsed line o
      → truthy line ≡ true
      → truthy (strip line) ≡ true
      → IsLine line (evidence_of loads L line seen o)
  unfolding evidence_of
  evidence_of-IsLine line seen (err x) u h j = u
  evidence_of-IsLine line seen (ok none) u h j =
      gated-IsLine line (add_kinds loads L line (kinds_of loads L line) seen)
        (add_kinds-AreUnproven line (kinds_of loads L line) seen h j)
  evidence_of-IsLine line seen (ok (some e)) u h j = structured-IsLine line e seen u

  line_evidence-IsLine :
      (line : String) (seen : List EvidenceKey)
      → strip line ≡ line
      → IsLine line (line_evidence loads L line seen)
  unfolding line_evidence
  line_evidence-IsLine line seen h = elim (Bool-cases (truthy line)) [
    | inl e ↦ rw e (
        evidence_of-IsLine line seen (parse_structured_completion_evidence loads line)
          (parse-IsParsed line) e (ap truthy h ∙ e))
    | inr e ↦ rw e tt
  ]

  -- `json.loads` raised on the payload of one of the lines
  pub record RaisedOn (lines : List String) (x : LoadError) : Type 0 where
    pub line : String
    pub is_line : In line lines
    pub raised : loads (payload_text (strip line)) ≡ err x

  RaisedOn-later :
      (raw : String) (rest : List String) (x : LoadError)
      → RaisedOn rest x
      → RaisedOn (raw ∷ rest) x
  RaisedOn-later raw rest x r = record {
    line = r.line;
    is_line = there r.is_line;
    raised = r.raised;
  }

  abbrev AreRead : List String → Result ExtractionError (List CompletionEvidence) → Type 0
  AreRead lines (ok es) = AllUnproven es
  AreRead lines (err (gate_error x)) = ⊥
  AreRead lines (err (load_error x)) = RaisedOn lines x

  two_lists :
      (raw : String) (lines : List String) (es : List CompletionEvidence)
      (r : Result ExtractionError (List CompletionEvidence))
      → AllUnproven es
      → AreRead lines r
      → AreRead (raw ∷ lines) (do more ← r; ok (es ++ more))
  two_lists raw lines es (ok more) h k = All-append (λ e. e.validator_result ≡ none) es more h k
  two_lists raw lines es (err (gate_error x)) h k = absurd k
  two_lists raw lines es (err (load_error x)) h k = RaisedOn-later raw lines x k

  lines_together :
      (raw : String) (lines : List String)
      (q : Result ExtractionError (List CompletionEvidence × List EvidenceKey))
      (rest : List EvidenceKey → Result ExtractionError (List CompletionEvidence))
      → IsLine (strip raw) q
      → ((after : List EvidenceKey) → AreRead lines (rest after))
      → AreRead (raw ∷ lines) (do (es, after) ← q; more ← rest after; ok (es ++ more))
  lines_together raw lines (ok (es, after)) rest h k =
      two_lists raw lines es (rest after) h (k after)
  lines_together raw lines (err (gate_error x)) rest h k = absurd h
  lines_together raw lines (err (load_error x)) rest h k = record {
    line = raw;
    is_line = here;
    raised = h;
  }

  extract_lines-AreRead :
      (lines : List String) (seen : List EvidenceKey)
      → AreRead lines (extract_lines loads L lines seen)
  unfolding extract_lines
  extract_lines-AreRead [] seen = tt
  extract_lines-AreRead (raw ∷ rest) seen =
      lines_together raw rest (line_evidence loads L (strip raw) seen) (extract_lines loads L rest)
        (line_evidence-IsLine (strip raw) seen (strip_idem raw)) (extract_lines-AreRead rest)

  -- How the extraction ends: with evidence that the gate of the done transition refuses, whatever done
  -- items there are, or with what `json.loads` raised on the payload of a line.
  pub data IsExtraction (s : String) (items : List EnrolledDoneWhenItem)
      : Result ExtractionError (List CompletionEvidence) → Type 0 where
    refused :
        {es : List CompletionEvidence}
        → is_ok (require_completion_receipts L items es) ≡ false
        → IsExtraction s items (ok es)
    raised : {x : LoadError} → RaisedOn (splitlines s) x → IsExtraction s items (err (load_error x))

  read-IsExtraction :
      (s : String) (items : List EnrolledDoneWhenItem)
      (r : Result ExtractionError (List CompletionEvidence))
      → AreRead (splitlines s) r
      → IsExtraction s items r
  read-IsExtraction s items (ok es) h = refused (unproven_refused L items es h)
  read-IsExtraction s items (err (gate_error x)) h = absurd h
  read-IsExtraction s items (err (load_error x)) h = raised h

  -- For every text of a pane, the extraction raises only what `json.loads` raises (beside the
  -- `JSONDecodeError` that is caught) on the payload of one of its lines; otherwise it returns, and
  -- whatever done items there are, that evidence alone is refused by the gate of the done transition:
  -- what a pane says never counts as a passing result.
  pub extraction_proves_nothing :
      (s : String) (items : List EnrolledDoneWhenItem)
      → IsExtraction s items (extract_completion_evidence loads L s)
  unfolding extract_completion_evidence
  extraction_proves_nothing s items =
      read-IsExtraction s items (extract_lines loads L (splitlines s) [])
        (extract_lines-AreRead (splitlines s) [])
