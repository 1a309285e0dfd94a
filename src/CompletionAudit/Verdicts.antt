-- ===== src/CompletionAudit/Verdicts.antt =====
-- What a clean audit certifies.
use chitra.Prelude.{
  String, Bool, true, false, not, ◌&&◌, Option, none, some, List, [], ◌∷◌, All, Any, any-Any,
  Any-any, is_empty, refl, ◌≡◌, ◌↔◌, arith, contains, Bool-cases, inl, inr, truthy, one_of,
  and-true,
}
use chitra.CompletionGate.{
  Lexicon, EvidenceKind, deploy, live_verify, CompletionEvidence, EnrolledDoneWhenItem,
  evidence_is_concrete, completion_receipt_issues, or_empty,
}
use chitra.CompletionGate.Receipts.{Proves, receipts_complete}
use chitra.CompletionAudit.{
  TodoItem, GatePolicy, chosen_policy, check_todo_residue, scan_deferral_language, is_kind,
  missing_kind, missing_evidence, item_gap, has_gap, per_item_evidence_gap, blocked_todos, audit_of,
  valid_evidence, invalid_evidence, evaluate_completion_claim,
}
use chitra.CompletionAudit.Picks.{
  kind_eq-true, kind_eq_refl, none_picked, not-false, not-true, empty-append, some_named, three,
  six,
}

module _ (L : Lexicon) (stored : Option (String → Option String)) where
  clean_of :
      (residue : List String) (deferral : List (String × String))
      (missing invalid gaps blocked : List String) (mismatch : Bool)
      → (audit_of L stored residue deferral missing invalid gaps blocked mismatch).clean ≡ (
          is_empty residue
          && (is_empty deferral
              && (is_empty missing && (is_empty invalid && (is_empty gaps && not mismatch)))))
  unfolding audit_of
  clean_of residue deferral missing invalid gaps blocked mismatch = ground arith

  module _ (policy : GatePolicy) (es : List CompletionEvidence) where
    -- the item's own proof: for an item with an id, the receipt and validator it names
    abbrev pub ItemProven : TodoItem → Option String → Option String → Option String → Type 0
    ItemProven i none validator receipt =
        Any (λ e. e.todo_item ≡ some i.text) (valid_evidence L stored es)
    ItemProven i (some id) validator receipt =
        (truthy (or_empty validator) ≡ true)
        × (truthy (or_empty receipt) ≡ true)
        × Any
            (Proves L stored (record {
              id = id;
              text = i.text;
              validator = or_empty validator;
              required_receipt = or_empty receipt;
            }))
            (valid_evidence L stored es)

    abbrev pub IsProvided : String → EvidenceKind → Type 0
    IsProvided name k =
        one_of name policy.required_evidence ≡ true
        → Any (λ e. e.kind ≡ k) (valid_evidence L stored es)

    missing_kind-empty :
        (name : String) (k : EvidenceKind) (m : String)
        → (is_empty (missing_kind L policy (valid_evidence L stored es) name k m) ≡ true)
          ↔ IsProvided name k
    unfolding missing_kind is_kind
    missing_kind-empty name k m = (
      λ h r.
          any-Any (λ e. e.kind ≡ k) (is_kind L k) (valid_evidence L stored es)
            (λ e q. kind_eq-true k e.kind q) (ground (arith, h, r)),
      λ h. elim (Bool-cases (one_of name policy.required_evidence)) [
        | inl r ↦ ground (
          arith,
          r,
          Any-any (λ e. e.kind ≡ k) (is_kind L k) (valid_evidence L stored es)
              (λ e q. kind_eq_refl k e.kind q) (h r),
        )
        | inr r ↦ rw r refl
      ],
    )

    missing_evidence-IsProvided :
        (is_empty (missing_evidence L policy (valid_evidence L stored es)) ≡ true)
        ↔ (IsProvided "deploy" deploy × IsProvided "live_verify" live_verify)
    unfolding missing_evidence
    missing_evidence-IsProvided =
        let first = missing_kind-empty "deploy" deploy "deploy evidence citation" in
        let second = missing_kind-empty "live_verify" live_verify "live-verify evidence citation" in
        rw
          (empty-append
            (missing_kind L policy (valid_evidence L stored es) "deploy" deploy
              "deploy evidence citation")
            (missing_kind L policy (valid_evidence L stored es) "live_verify" live_verify
              "live-verify evidence citation"))
          (
            λ h. let k = and-true _ _ h in (first.0 k.0, second.0 k.1),
            λ h. rw (first.1 h.0, second.1 h.1) refl,
          )

    item_gap-ItemProven :
        (i : TodoItem) (id validator receipt : Option String)
        → (item_gap L stored i id validator receipt (valid_evidence L stored es) ≡ false)
          ↔ ItemProven i id validator receipt
    unfolding item_gap
    item_gap-ItemProven i none v r = some_named i.text (valid_evidence L stored es)
    item_gap-ItemProven i (some id) v r =
        let item : EnrolledDoneWhenItem = record {
          id = id;
          text = i.text;
          validator = or_empty v;
          required_receipt = or_empty r;
        } in
        let valid = valid_evidence L stored es in
        let receipts = receipts_complete L stored (item ∷ []) valid in
        let tests =
          three (truthy (or_empty v)) (truthy (or_empty r))
            (is_empty (completion_receipt_issues L stored (item ∷ []) valid)) in
        (
          λ h. let t = tests.0 h in (t.0, t.1, (receipts.0 t.2).0),
          λ h. tests.1 (h.0, h.1, receipts.1 (h.2, tt)),
        )

    has_gap-ItemProven :
        (i : TodoItem)
        → (has_gap L stored policy (valid_evidence L stored es) i ≡ false) ↔ (
            one_of i.status policy.complete_todo_statuses ≡ true
            → ItemProven i i.id i.validator i.required_receipt)
    unfolding has_gap
    has_gap-ItemProven i =
        let gap = item_gap-ItemProven i i.id i.validator i.required_receipt in
        elim (Bool-cases (one_of i.status policy.complete_todo_statuses)) [
          | inl e ↦ rw e (λ h k. gap.0 h, λ h. gap.1 (h refl))
          | inr e ↦ rw e (λ h k. absurd cc, λ h. refl)
        ]

    -- What a clean audit certifies.
    pub record IsClean (items : List TodoItem) (text : String) (asks blockers : List String)
        : Type 0 where
      pub finished : All (λ i. one_of i.status policy.complete_todo_statuses ≡ true) items
      pub no_deferral :
          All (λ phrase. contains (L.lower phrase) (L.lower text) ≡ false) policy.deferral_phrases
      pub deployed : IsProvided "deploy" deploy
      pub verified_live : IsProvided "live_verify" live_verify
      pub concrete : All (λ e. evidence_is_concrete L e ≡ true) es
      pub items_proven :
          All
            (λ i.
              one_of i.status policy.complete_todo_statuses ≡ true
              → ItemProven i i.id i.validator i.required_receipt)
            items
      pub posture :
          (not (is_empty (blocked_todos L stored items)) && is_empty asks && is_empty blockers)
          ≡ false

  -- With any policy (the default one when none is given), the audit is clean if and only if every todo
  -- item is finished, no deferral phrase stands in the text, all evidence is concrete, the required
  -- deploy and live verification are among it, every finished item has its own proof, and a blocked
  -- item comes with an open ask or a blocker.
  pub evaluate_completion_claim-IsClean :
      (shipped : List String) (items : List TodoItem) (text : String) (es : List CompletionEvidence)
      (given : Option GatePolicy) (asks blockers : List String)
      → ((evaluate_completion_claim L stored shipped items text es given asks blockers).clean
          ≡ true)
        ↔ IsClean (chosen_policy shipped given) es items text asks blockers
  unfolding evaluate_completion_claim check_todo_residue scan_deferral_language missing_evidence
      per_item_evidence_gap invalid_evidence
  evaluate_completion_claim-IsClean shipped items text es given asks blockers =
      let policy = chosen_policy shipped given in
      let valid = valid_evidence L stored es in
      let residue =
        none_picked (λ i. i.text) (λ i. not (one_of i.status policy.complete_todo_statuses))
          (λ i. one_of i.status policy.complete_todo_statuses ≡ true) items
          (λ i. not-false (one_of i.status policy.complete_todo_statuses)) in
      let deferral =
        none_picked {B = String × String} (λ phrase. (phrase, "DEFERRAL_STUB"))
          (λ phrase. contains (L.lower phrase) (L.lower text))
          (λ phrase. contains (L.lower phrase) (L.lower text) ≡ false) policy.deferral_phrases
          (λ phrase. (λ e. e, λ e. e)) in
      let invalid =
        none_picked (λ e. e.citation) (λ e. not (evidence_is_concrete L e))
          (λ e. evidence_is_concrete L e ≡ true) es (λ e. not-false (evidence_is_concrete L e)) in
      let gaps =
        none_picked (λ i. i.text) (has_gap L stored policy valid)
          (λ i.
            one_of i.status policy.complete_todo_statuses ≡ true
            → ItemProven policy es i i.id i.validator i.required_receipt)
          items (has_gap-ItemProven policy es) in
      let missing = missing_evidence-IsProvided policy es in
      let mismatch =
        not (is_empty (blocked_todos L stored items)) && is_empty asks && is_empty blockers in
      let all_six = six _ _ _ _ _ (not mismatch) in
      rw
        (clean_of (check_todo_residue items policy.complete_todo_statuses)
          (scan_deferral_language L text policy.deferral_phrases) (missing_evidence L policy valid)
          (invalid_evidence L stored es) (per_item_evidence_gap L stored policy valid items)
          (blocked_todos L stored items) mismatch)
        (
          λ h.
              let k = all_six.0 h in
              record {
                finished = residue.0 k.0;
                no_deferral = deferral.0 k.1;
                deployed = (missing.0 k.2).0;
                verified_live = (missing.0 k.2).1;
                concrete = invalid.0 k.3;
                items_proven = gaps.0 k.4;
                posture = (not-true mismatch).0 k.5;
              },
          λ h. all_six.1 (
            residue.1 h.finished,
            deferral.1 h.no_deferral,
            missing.1 (h.deployed, h.verified_live),
            invalid.1 h.concrete,
            gaps.1 h.items_proven,
            (not-true mismatch).1 h.posture,
          ),
        )
