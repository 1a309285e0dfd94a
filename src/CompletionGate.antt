-- ===== src/CompletionGate.antt =====
-- src/chitra/completion_gate.py: the receipts of the frozen done items, and the audit of a turn that
-- claims completion. The compiled patterns of src/chitra/lexicon.py, `str.lower`, `repr` and `str`
-- of a number are parameters.
pub mod Receipts
use Prim.Native.String.{◌++◌ as append}
use chitra.Prelude.{
  ℕ, String, ◌==◌, Bool, true, false, not, ◌&&◌, ◌||◌, Option, none, some, List, [], ◌∷◌, ◌++◌, map,
  any, all, select, is_empty, if◌then◌else◌, Result, ok, err, ◌>>=◌, ◌>>◌, require, truthy, one_of,
  option_eq, strip, join, contains, length,
}

-- pattern.search(text) is not None, and the text functions of the language
pub record Lexicon : Type 0 where
  pub claim : String → Bool
  pub negation : String → Bool
  pub pull_request : String → Bool
  pub sha : String → Bool
  pub path : String → Bool
  pub live_result : String → Bool
  pub failure_text : String → Bool
  pub deploy_word : String → Bool
  pub live_word : String → Bool
  pub proof_word : String → Bool
  pub lower : String → String
  pub repr : String → String
  pub str : ℕ → String

pub data EvidenceKind : Type 0 where
  artifact deploy live_verify merged_pr failure : EvidenceKind

unfoldable pub kind_eq : EvidenceKind → EvidenceKind → Bool
kind_eq artifact artifact = true
kind_eq deploy deploy = true
kind_eq live_verify live_verify = true
kind_eq merged_pr merged_pr = true
kind_eq failure failure = true
kind_eq _ _ = false

pub data ValidatorResult : Type 0 where
  pass fail : ValidatorResult

pub record CompletionEvidence : Type 0 where
  pub kind : EvidenceKind
  pub citation : String
  pub todo_item : Option String
  pub done_when_item_id : Option String
  pub receipt_name : Option String
  pub validator : Option String
  pub validator_result : Option ValidatorResult

pub record EnrolledDoneWhenItem : Type 0 where
  pub id : String
  pub text : String
  pub validator : String
  pub required_receipt : String

pub data GateError : Type 0 where
  value_error : String → GateError

-- the field validators of `CompletionEvidence`
citation_is_not_whitespace : String → Result GateError String
unfolding strip
citation_is_not_whitespace s = do
  require (truthy s && truthy (strip s)) (value_error "evidence citation must be non-empty")
  ok (strip s)

optional_strings_are_not_whitespace : Option String → Result GateError (Option String)
unfolding strip
optional_strings_are_not_whitespace none = ok none
optional_strings_are_not_whitespace (some s) = do
  require (truthy (strip s))
      (value_error "optional evidence bindings must be non-empty when present")
  ok (some (strip s))

-- CompletionEvidence(…)
pub completion_evidence : CompletionEvidence → Result GateError CompletionEvidence
unfolding citation_is_not_whitespace optional_strings_are_not_whitespace
completion_evidence e = do
  citation ← citation_is_not_whitespace e.citation
  todo_item ← optional_strings_are_not_whitespace e.todo_item
  done_when_item_id ← optional_strings_are_not_whitespace e.done_when_item_id
  receipt_name ← optional_strings_are_not_whitespace e.receipt_name
  validator ← optional_strings_are_not_whitespace e.validator
  ok (record {
    kind = e.kind;
    citation = citation;
    todo_item = todo_item;
    done_when_item_id = done_when_item_id;
    receipt_name = receipt_name;
    validator = validator;
    validator_result = e.validator_result;
  })

is_pass : Option ValidatorResult → Bool
is_pass (some pass) = true
is_pass _ = false

-- x or ""
unfoldable pub or_empty : Option String → String
or_empty none = ""
or_empty (some s) = s

-- (verified_results or the claim) == "pass"; a mapping of results is its `get`
pub result_passes : Option (String → Option String) → CompletionEvidence → Bool
unfolding is_pass or_empty
result_passes none e = is_pass e.validator_result
result_passes (some stored) e = option_eq (stored (or_empty e.receipt_name)) (some "pass")

-- the proofs left after each of the four tests, and what is missing at the first empty one
bound_to : EnrolledDoneWhenItem → List CompletionEvidence → List CompletionEvidence
bound_to i es = select (λ e. option_eq e.done_when_item_id (some i.id)) es

named_for : EnrolledDoneWhenItem → List CompletionEvidence → List CompletionEvidence
named_for i es = select (λ e. option_eq e.receipt_name (some i.required_receipt)) es

validated_for : EnrolledDoneWhenItem → List CompletionEvidence → List CompletionEvidence
validated_for i es = select (λ e. option_eq e.validator (some i.validator)) es

module _ (L : Lexicon) where
  pub concrete : EvidenceKind → String → Bool
  concrete deploy s = L.sha s
  concrete live_verify s = L.path s || L.live_result s
  concrete artifact s = L.path s
  concrete merged_pr s = L.pull_request s
  concrete failure s = L.path s || L.failure_text s

  unfoldable pub evidence_is_concrete : CompletionEvidence → Bool
  unfolding concrete
  evidence_is_concrete e = concrete e.kind e.citation

  done_item : EnrolledDoneWhenItem → String → String
  done_item i rest = append "done item " (append (L.repr i.id) rest)

  module _ (verified_results : Option (String → Option String)) where
    passing : List CompletionEvidence → List CompletionEvidence
    unfolding result_passes evidence_is_concrete
    passing es = select (λ e. result_passes verified_results e && evidence_is_concrete e) es

    pub issue_of : EnrolledDoneWhenItem → List CompletionEvidence → Option String
    unfolding done_item bound_to named_for validated_for passing
    issue_of i evidence =
        let item_proofs = bound_to i evidence in
        let named = named_for i item_proofs in
        let validated = validated_for i named in
        if is_empty item_proofs
        then some (done_item i " has no completion receipt")
        else if is_empty named
        then some (done_item i (append " requires receipt " (L.repr i.required_receipt)))
        else if is_empty validated
        then some (done_item i (append " requires validator " (L.repr i.validator)))
        else if is_empty (passing validated)
        then some (done_item i " has no passing validator result with a concrete citation")
        else none

    unfoldable pub completion_receipt_issues :
        List EnrolledDoneWhenItem → List CompletionEvidence → List String
    unfolding issue_of
    completion_receipt_issues [] evidence = []
    completion_receipt_issues (i ∷ items) evidence =
        let rest = completion_receipt_issues items evidence in
        elim (issue_of i evidence) [ none ↦ rest | some issue ↦ issue ∷ rest ]

  pub require_completion_receipts :
      List EnrolledDoneWhenItem → List CompletionEvidence → Result GateError (Unit {0})
  unfolding completion_receipt_issues
  require_completion_receipts items evidence = do
    require (not (is_empty items)) (value_error "completion requires at least one frozen done item")
    require (is_empty (completion_receipt_issues none items evidence))
        (value_error (join "; " (completion_receipt_issues none items evidence)))
