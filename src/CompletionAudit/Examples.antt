-- ===== src/CompletionAudit/Examples.antt =====
-- A turn with one finished item, a deploy and a live check.
use chitra.Prelude.{String, contains, true, none, some, List, [], ◌∷◌, refl, ◌≡◌, ◌↔◌}
use chitra.CompletionGate.{
  Lexicon, CompletionEvidence, EvidenceKind, deploy, live_verify, evidence_is_concrete,
}
use chitra.CompletionAudit.{TodoItem, chosen_policy, evaluate_completion_claim}
use chitra.CompletionAudit.Verdicts.{IsClean, evaluate_completion_claim-IsClean}

abbrev words : Lexicon
words = record {
  claim = contains "done";
  negation = contains "not";
  pull_request = contains "#";
  sha = contains "sha";
  path = contains "/";
  live_result = contains "200";
  failure_text = contains "failed";
  deploy_word = contains "deploy";
  live_word = contains "live";
  proof_word = contains "log";
  lower = λ s. s;
  repr = λ s. s;
  str = λ n. "n";
}

abbrev rollout : TodoItem
rollout = record {
  text = "roll out";
  status = "done";
  id = none;
  validator = none;
  required_receipt = none;
}

abbrev cited : EvidenceKind → String → CompletionEvidence
cited k s = record {
  kind = k;
  citation = s;
  todo_item = some "roll out";
  done_when_item_id = none;
  receipt_name = none;
  validator = none;
  validator_result = none;
}

abbrev proofs : List CompletionEvidence
proofs = cited deploy "sha 1a2b" ∷ cited live_verify "GET / 200" ∷ []

rollout_clean :
    (evaluate_completion_claim words none
      ("later" ∷ [])
      (rollout ∷ [])
      "all done"
      proofs
      none
      []
      []).clean
    ≡ true
unfolding evaluate_completion_claim evidence_is_concrete chosen_policy
rollout_clean = refl

evaluate_completion_claim-IsClean_example :
    ((evaluate_completion_claim words none
        ("later" ∷ [])
        (rollout ∷ [])
        "all done"
        proofs
        none
        []
        []).clean
      ≡ true)
    ↔ IsClean words none (chosen_policy ("later" ∷ []) none) proofs (rollout ∷ []) "all done" [] []
evaluate_completion_claim-IsClean_example =
    evaluate_completion_claim-IsClean words none ("later" ∷ []) (rollout ∷ []) "all done" proofs
      none [] []
