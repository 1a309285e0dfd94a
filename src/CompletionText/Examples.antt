-- ===== src/CompletionText/Examples.antt =====
-- A pane that claims a pass in a structured line, and cites a log.
use chitra.Prelude.{contains, ◌==◌, none, some, [], ◌∷◌, ok, err, if◌then◌else◌}
use chitra.Json.{Json, Loads, long_integer, text, obj, field, end}
use chitra.CompletionGate.{Lexicon, EnrolledDoneWhenItem}
use chitra.CompletionText.{extract_completion_evidence}
use chitra.CompletionText.Extraction.{IsExtraction, extraction_proves_nothing}

abbrev words : Lexicon
words = record {
  claim = contains "done";
  negation = contains "not";
  pull_request = contains "#";
  sha = contains "sha";
  path = contains "/";
  live_result = contains "200";
  failure_text = contains "failed";
  deploy_word = contains "deploy";
  live_word = contains "live";
  proof_word = contains "log";
  lower = λ s. s;
  repr = λ s. s;
  str = λ n. "n";
}

abbrev claimed_pass : Json
claimed_pass = obj (
    field "done_when_item_id" (text "d1") (
      field "receipt_name" (text "tests") (
        field "validator" (text "pytest")
          (field "validator_result" (text "pass") (field "citation" (text "out/tests.log") end)))))

abbrev reader : Loads
reader s =
    if s == "{claim}"
    then ok (some claimed_pass)
    else if s == "{long}"
    then err long_integer
    else ok none

abbrev report_item : EnrolledDoneWhenItem
report_item = record {
  id = "d1";
  text = "write the report";
  validator = "pytest";
  required_receipt = "tests";
}

extraction_proves_nothing_example :
    IsExtraction reader words "CHITRA-COMPLETION: {claim}\nlog at out/tests.log"
      (report_item ∷ [])
      (extract_completion_evidence reader words "CHITRA-COMPLETION: {claim}\nlog at out/tests.log")
extraction_proves_nothing_example =
    extraction_proves_nothing reader words "CHITRA-COMPLETION: {claim}\nlog at out/tests.log"
      (report_item ∷ [])
