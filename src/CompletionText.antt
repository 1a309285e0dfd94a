-- ===== src/CompletionText.antt =====
-- src/chitra/completion_gate.py: what a pane's text claims, `is_completion_claim` and
-- `extract_completion_evidence`. `json.loads` is a parameter; only its `JSONDecodeError` is caught.
mod Extraction
mod Examples
use chitra.Prelude.{
  String, ◌==◌, Bool, true, false, not, ◌&&◌, ◌||◌, Option, none, some, List, [], ◌∷◌, ◌++◌, any,
  all, is_some, if◌then◌else◌, Result, ok, err, ◌>>=◌, ◌>>◌, require, truthy, one_of, option_eq,
  strip, splitlines, drop_prefix,
}
use chitra.Json.{Json, Loads, LoadError, text, obj, null, Fields, end, field, get, as_obj}
use chitra.CompletionGate.{
  Lexicon, EvidenceKind, artifact, deploy, live_verify, merged_pr, failure, kind_eq,
  ValidatorResult, pass, fail, CompletionEvidence, GateError, value_error, completion_evidence,
}

-- the key of `seen`
pub record EvidenceKey : Type 0 where
  pub kind : EvidenceKind
  pub citation : String
  pub done_when_item_id : Option String
  pub receipt_name : Option String

key_eq : EvidenceKey → EvidenceKey → Bool
key_eq k l =
    kind_eq k.kind l.kind
    && k.citation == l.citation
    && option_eq k.done_when_item_id l.done_when_item_id
    && option_eq k.receipt_name l.receipt_name

key_of : CompletionEvidence → EvidenceKey
key_of e = record {
  kind = e.kind;
  citation = e.citation;
  done_when_item_id = e.done_when_item_id;
  receipt_name = e.receipt_name;
}

-- pydantic's reading of the fields, in `CompletionEvidence.model_validate`
kind_named : String → Result GateError EvidenceKind
kind_named s =
    if s == "artifact"
    then ok artifact
    else if s == "deploy"
    then ok deploy
    else if s == "live_verify"
    then ok live_verify
    else if s == "merged_pr"
    then ok merged_pr
    else if s == "failure"
    then ok failure
    else err (value_error "kind")

kind_field : Option Json → Result GateError EvidenceKind
unfolding kind_named
kind_field none = ok artifact
kind_field (some (text s)) = kind_named s
kind_field (some _) = err (value_error "kind")

citation_field : Option Json → Result GateError String
citation_field (some (text s)) = ok s
citation_field _ = err (value_error "citation")

optional_field : Option Json → Result GateError (Option String)
optional_field none = ok none
optional_field (some null) = ok none
optional_field (some (text s)) = ok (some s)
optional_field (some _) = err (value_error "field")

result_named : String → Result GateError (Option ValidatorResult)
result_named s =
    if s == "pass"
    then ok (some pass)
    else if s == "fail"
    then ok (some fail)
    else err (value_error "validator_result")

result_field : Option Json → Result GateError (Option ValidatorResult)
unfolding result_named
result_field none = ok none
result_field (some null) = ok none
result_field (some (text s)) = result_named s
result_field (some _) = err (value_error "validator_result")

known_fields : Fields → Bool
known_fields end = true
known_fields (field name v rest) =
    one_of name (
      "kind" ∷ "citation" ∷ "todo_item" ∷ "done_when_item_id" ∷ "receipt_name" ∷ "validator"
      ∷ "validator_result" ∷ [])
    && known_fields rest

-- the fields together
evidence_from :
    Result GateError EvidenceKind
    → Result GateError String
    → Result GateError (Option String)
    → Result GateError (Option String)
    → Result GateError (Option String)
    → Result GateError (Option String)
    → Result GateError (Option ValidatorResult)
    → Result GateError CompletionEvidence
evidence_from kind_r citation_r todo_r item_r receipt_r validator_r result_r = do
  kind ← kind_r
  citation ← citation_r
  todo_item ← todo_r
  done_when_item_id ← item_r
  receipt_name ← receipt_r
  validator ← validator_r
  validator_result ← result_r
  completion_evidence (record {
    kind = kind;
    citation = citation;
    todo_item = todo_item;
    done_when_item_id = done_when_item_id;
    receipt_name = receipt_name;
    validator = validator;
    validator_result = validator_result;
  })

pub model_validate : Fields → Result GateError CompletionEvidence
unfolding known_fields kind_field citation_field optional_field result_field evidence_from
model_validate f = do
  require (known_fields f) (value_error "extra fields")
  evidence_from (kind_field (get "kind" f)) (citation_field (get "citation" f))
      (optional_field (get "todo_item" f)) (optional_field (get "done_when_item_id" f))
      (optional_field (get "receipt_name" f)) (optional_field (get "validator" f))
      (result_field (get "validator_result" f))

-- { key: value for key, value in payload.items() if key != name }
without : String → Fields → Fields
without name end = end
without name (field key v rest) =
    let kept = without name rest in if key == name then kept else field key v kept

-- the text after the prefix of a structured line, or the line
pub payload_text : String → String
unfolding drop_prefix strip
payload_text line = elim (drop_prefix "CHITRA-COMPLETION:" line) [
  | some rest ↦ strip rest
  | none ↦ elim (drop_prefix "CHITRA_COMPLETION:" line) [ some rest ↦ strip rest | none ↦ line ]
]

has_binding : Fields → Bool
has_binding f =
    all (λ name. is_some (get name f))
      ("done_when_item_id" ∷ "receipt_name" ∷ "validator" ∷ "validator_result" ∷ "citation" ∷ [])

pub parse_fields : Option Fields → Option CompletionEvidence
unfolding has_binding model_validate without
parse_fields none = none
parse_fields (some f) =
    if not (has_binding f)
    then none
    else elim (model_validate (without "validator_result" f)) [ ok e ↦ some e | err x ↦ none ]

-- what the extraction raises: the check of a model, or `json.loads`
pub data ExtractionError : Type 0 where
  gate_error : GateError → ExtractionError
  load_error : LoadError → ExtractionError

module _ (loads : Loads) where
  pub parse_structured_completion_evidence : String → Result LoadError (Option CompletionEvidence)
  unfolding payload_text parse_fields
  parse_structured_completion_evidence line =
      if not (is_some (drop_prefix "{" (payload_text line)))
      then ok none
      else (do payload ← loads (payload_text line); ok (parse_fields (as_obj payload)))

  any_structured : List String → Result LoadError Bool
  unfolding parse_structured_completion_evidence
  any_structured [] = ok false
  any_structured (raw ∷ rest) =
      let later = any_structured rest in
      do
        found ← parse_structured_completion_evidence (strip raw)
        if is_some found then ok true else later

  pub has_structured_completion_line : String → Result LoadError Bool
  unfolding any_structured
  has_structured_completion_line s = any_structured (splitlines s)

  module _ (L : Lexicon) where
    pub is_completion_claim : String → Bool
    is_completion_claim s = any (λ line. L.claim line && not (L.negation line)) (splitlines s)

    kind_if : Bool → EvidenceKind → List EvidenceKind
    kind_if true k = k ∷ []
    kind_if false k = []

    kinds_of : String → List EvidenceKind
    unfolding kind_if
    kinds_of s =
        kind_if (L.pull_request s) merged_pr
        ++ kind_if (L.sha s && L.deploy_word s) deploy
        ++ kind_if (L.live_result s || (L.live_word s && L.path s)) live_verify
        ++ kind_if (L.path s && L.proof_word s) artifact
        ++ kind_if (L.failure_text s) failure

    cited : EvidenceKind → String → CompletionEvidence
    cited k line = record {
      kind = k;
      citation = line;
      todo_item = none;
      done_when_item_id = none;
      receipt_name = none;
      validator = none;
      validator_result = none;
    }

    -- the loop over the kinds of one line
    add_kinds :
        String
        → List EvidenceKind
        → List EvidenceKey
        → Result GateError (List CompletionEvidence × List EvidenceKey)
    unfolding cited key_of key_eq
    add_kinds line [] seen = ok ([], seen)
    add_kinds line (k ∷ ks) seen =
        let skipped = add_kinds line ks seen in
        let later = add_kinds line ks (key_of (cited k line) ∷ seen) in
        if any (key_eq (key_of (cited k line))) seen
        then skipped
        else (do e ← completion_evidence (cited k line); (es, after) ← later; ok (e ∷ es, after))

    gated :
        Result GateError (List CompletionEvidence × List EvidenceKey)
        → Result ExtractionError (List CompletionEvidence × List EvidenceKey)
    gated (err x) = err (gate_error x)
    gated (ok found) = ok found

    -- a line, once it is parsed
    evidence_of :
        String
        → List EvidenceKey
        → Result LoadError (Option CompletionEvidence)
        → Result ExtractionError (List CompletionEvidence × List EvidenceKey)
    unfolding gated add_kinds kinds_of key_of key_eq
    evidence_of line seen (err x) = err (load_error x)
    evidence_of line seen (ok none) = gated (add_kinds line (kinds_of line) seen)
    evidence_of line seen (ok (some e)) =
        if any (key_eq (key_of e)) seen then ok ([], seen) else ok (e ∷ [], key_of e ∷ seen)

    -- the body of the loop over the lines
    line_evidence :
        String
        → List EvidenceKey
        → Result ExtractionError (List CompletionEvidence × List EvidenceKey)
    unfolding parse_structured_completion_evidence evidence_of
    line_evidence line seen =
        if not (truthy line)
        then ok ([], seen)
        else evidence_of line seen (parse_structured_completion_evidence line)

    extract_lines :
        List String → List EvidenceKey → Result ExtractionError (List CompletionEvidence)
    unfolding line_evidence
    extract_lines [] seen = ok []
    extract_lines (raw ∷ rest) seen = do
      (es, after) ← line_evidence (strip raw) seen
      more ← extract_lines rest after
      ok (es ++ more)

    pub extract_completion_evidence : String → Result ExtractionError (List CompletionEvidence)
    unfolding extract_lines
    extract_completion_evidence s = extract_lines (splitlines s) []
