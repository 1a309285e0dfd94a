-- ===== src/CloseGate/Examples.antt =====
-- One done item with its receipt, then with a further proof.
use chitra.Prelude.{contains, true, none, some, [], ◌∷◌, ◌++◌, refl, ◌≡◌, ◌↔◌, is_ok}
use chitra.CompletionGate.{
  Lexicon, CompletionEvidence, artifact, deploy, pass, fail, EnrolledDoneWhenItem,
  require_completion_receipts, completion_receipt_issues,
}
use chitra.CloseGate.{require_structured_close_inventory}
use chitra.CloseGate.Verdicts.{IsClosed, require_structured_close_inventory_lem, close_is_kept}

abbrev words : Lexicon
words = record {
  claim = contains "done";
  negation = contains "not";
  pull_request = contains "#";
  sha = contains "sha";
  path = contains "/";
  live_result = contains "200";
  failure_text = contains "failed";
  deploy_word = contains "deploy";
  live_word = contains "live";
  proof_word = contains "log";
  lower = λ s. s;
  repr = λ s. s;
  str = λ n. "n";
}

abbrev report_item : EnrolledDoneWhenItem
report_item = record {
  id = "d1";
  text = "write the report";
  validator = "pytest";
  required_receipt = "tests";
}

abbrev report_proof : CompletionEvidence
report_proof = record {
  kind = artifact;
  citation = "log at out/tests.log";
  todo_item = none;
  done_when_item_id = some "d1";
  receipt_name = some "tests";
  validator = some "pytest";
  validator_result = some pass;
}

abbrev failed_deploy : CompletionEvidence
failed_deploy = record {
  kind = deploy;
  citation = "rollout";
  todo_item = none;
  done_when_item_id = some "d1";
  receipt_name = some "rollout";
  validator = none;
  validator_result = some fail;
}

report_closed :
    is_ok (require_structured_close_inventory words (report_item ∷ []) (report_proof ∷ [])) ≡ true
unfolding require_structured_close_inventory completion_receipt_issues
report_closed = refl

require_structured_close_inventory_example :
    ((is_ok (require_structured_close_inventory words (report_item ∷ []) (report_proof ∷ []))
        ≡ true)
      ↔ IsClosed words (report_item ∷ []) (report_proof ∷ []))
    × (is_ok (require_structured_close_inventory words (report_item ∷ []) (report_proof ∷ []))
        ≡ is_ok (require_completion_receipts words (report_item ∷ []) (report_proof ∷ [])))
require_structured_close_inventory_example =
    require_structured_close_inventory_lem words (report_item ∷ []) (report_proof ∷ [])

close_is_kept_example :
    is_ok (
      require_structured_close_inventory words
        (report_item ∷ [])
        ((report_proof ∷ []) ++ (failed_deploy ∷ [])))
    ≡ true
close_is_kept_example =
    close_is_kept words (report_item ∷ []) (report_proof ∷ []) (failed_deploy ∷ []) report_closed
