-- ===== src/CloseGate/Verdicts.antt =====
-- The close gate passes for complete receipts only, and agrees with the gate of the done transition.
use chitra.Prelude.{
  String, true, false, not, ◌&&◌, none, List, ◌++◌, All, Any, is_empty, refl, sym, ◌≡◌, ◌↔◌, arith,
  is_ok, ◌∙◌,
}
use chitra.CompletionGate.{
  Lexicon, CompletionEvidence, EnrolledDoneWhenItem, completion_receipt_issues,
  require_completion_receipts,
}
use chitra.CompletionGate.Receipts.{
  Proves, receipts_complete, require_completion_receipts-ok, more_evidence,
}
use chitra.CloseGate.{
  verdict_of, evaluate_structured_close_inventory, require_structured_close_inventory,
}

module _ (L : Lexicon) where
  -- what a returned verdict states
  pub record IsClosed (items : List EnrolledDoneWhenItem) (es : List CompletionEvidence)
      : Type 0 where
    pub some_item : is_empty items ≡ false
    pub proven : All (λ i. Any (Proves L none i) es) items

  passes :
      (items : List EnrolledDoneWhenItem) (issues : List String)
      → (verdict_of L items issues).passed ≡ (not (is_empty items) && is_empty issues)
  unfolding verdict_of
  passes items issues = ground arith

  evaluate_passes :
      (items : List EnrolledDoneWhenItem) (es : List CompletionEvidence)
      → (evaluate_structured_close_inventory L items es).passed
        ≡ (not (is_empty items) && is_empty (completion_receipt_issues L none items es))
  unfolding evaluate_structured_close_inventory
  evaluate_passes items es = passes items (completion_receipt_issues L none items es)

  evaluate-passed :
      (items : List EnrolledDoneWhenItem) (es : List CompletionEvidence)
      → ((evaluate_structured_close_inventory L items es).passed ≡ true) ↔ IsClosed items es
  evaluate-passed items es =
      let all_proven = receipts_complete L none items es in
      rw (evaluate_passes items es) (
        λ h. record { some_item = ground (arith, h); proven = all_proven.0 (ground (arith, h)) },
        λ h. rw (h.some_item, all_proven.1 h.proven) refl,
      )

  require_passed :
      (items : List EnrolledDoneWhenItem) (es : List CompletionEvidence)
      → is_ok (require_structured_close_inventory L items es)
        ≡ (evaluate_structured_close_inventory L items es).passed
  unfolding require_structured_close_inventory
  require_passed items es = ground arith

  -- The close gate returns, and does not raise, if and only if there is a done item and every done item
  -- has a proof among the evidence, and it raises exactly when the gate of the done transition raises.
  pub require_structured_close_inventory_lem :
      (items : List EnrolledDoneWhenItem) (es : List CompletionEvidence)
      → ((is_ok (require_structured_close_inventory L items es) ≡ true) ↔ IsClosed items es)
        × (is_ok (require_structured_close_inventory L items es)
            ≡ is_ok (require_completion_receipts L items es))
  require_structured_close_inventory_lem items es = rw (require_passed items es) (
    evaluate-passed items es,
    evaluate_passes items es ∙ sym (require_completion_receipts-ok L none items es),
  )

  -- Evidence that is added never reopens a close: what the gate passed it passes again.
  pub close_is_kept :
      (items : List EnrolledDoneWhenItem) (es more : List CompletionEvidence)
      → is_ok (require_structured_close_inventory L items es) ≡ true
      → is_ok (require_structured_close_inventory L items (es ++ more)) ≡ true
  close_is_kept items es more h =
      let before = (require_structured_close_inventory_lem items es).0.0 h in
      (require_structured_close_inventory_lem items (es ++ more)).0.1 (record {
        some_item = before.some_item;
        proven = more_evidence L none items es more before.proven;
      })
