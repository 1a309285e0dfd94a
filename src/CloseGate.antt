-- ===== src/CloseGate.antt =====
-- src/chitra/close_gate.py: the close of a goal, from the receipts of its frozen done items.
mod Verdicts
mod Examples
use Prim.Native.String.{◌++◌ as append}
use chitra.Prelude.{
  String, Bool, true, false, not, List, [], ◌∷◌, map, none, is_empty, if◌then◌else◌, Result, ok,
  err, join,
}
use chitra.CompletionGate.{
  Lexicon, CompletionEvidence, EnrolledDoneWhenItem, completion_receipt_issues,
}

pub record StructuredCloseVerdict : Type 0 where
  -- verdict == "PASS"
  pub passed : Bool
  pub required_item_ids : List String
  pub issues : List String
  pub summary : String

module _ (L : Lexicon) where
  verdict_of : List EnrolledDoneWhenItem → List String → StructuredCloseVerdict
  verdict_of items issues =
      if is_empty items
      then record {
        passed = false;
        required_item_ids = [];
        issues = "completion close requires at least one frozen done item" ∷ [];
        summary = "FAIL: completion close requires at least one frozen done item.";
      }
      else if not (is_empty issues)
      then record {
        passed = false;
        required_item_ids = map (λ i. i.id) items;
        issues = issues;
        summary = append "FAIL: " (join "; " issues);
      }
      else record {
        passed = true;
        required_item_ids = map (λ i. i.id) items;
        issues = [];
        summary = "PASS: every frozen done item has its exact passing named receipt.";
      }

  pub evaluate_structured_close_inventory :
      List EnrolledDoneWhenItem → List CompletionEvidence → StructuredCloseVerdict
  unfolding verdict_of
  evaluate_structured_close_inventory items evidence =
      verdict_of items (completion_receipt_issues L none items evidence)

  -- `err` carries the verdict of the `StructuredCloseGateError`
  pub require_structured_close_inventory :
      List EnrolledDoneWhenItem
      → List CompletionEvidence
      → Result StructuredCloseVerdict StructuredCloseVerdict
  unfolding evaluate_structured_close_inventory
  require_structured_close_inventory items evidence =
      let verdict = evaluate_structured_close_inventory items evidence in
      if verdict.passed then ok verdict else err verdict
