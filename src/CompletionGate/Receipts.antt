-- ===== src/CompletionGate/Receipts.antt =====
-- When the receipts of the done items are complete.
use chitra.Prelude.{
  truthy, strip, ok, String, eq_iff, Bool, true, false, not, ◌&&◌, Option, none, some, List, [],
  ◌∷◌, ◌++◌, Any, All, any, any-Any, Any-any, any-select, select, is_empty, refl, ap, sym, ◌∙◌, ◌≡◌,
  ◌↔◌, inl, inr, arith, if◌then◌else◌, option_eq, Bool-cases, Option-cases, is_some, is_ok,
}
use chitra.CompletionGate.{
  EvidenceKind, citation_is_not_whitespace, optional_strings_are_not_whitespace,
  completion_evidence, Lexicon, CompletionEvidence, EnrolledDoneWhenItem, result_passes,
  evidence_is_concrete, bound_to, named_for, validated_for, passing, issue_of,
  completion_receipt_issues, require_completion_receipts,
}

pub option_eq-some : (o : Option String) (s : String) → (option_eq o (some s) ≡ true) ↔ (o ≡ some s)
option_eq-some none s = (λ h. absurd cc, λ h. absurd cc)
option_eq-some (some t) s = (λ h. ground (arith, eq_iff t s), λ h. ground (arith, eq_iff t s))

pub empty-any : {A : Type 0} (p : A → Bool) (xs : List A) → is_empty (select p xs) ≡ not (any p xs)
empty-any p [] = refl
empty-any p (x ∷ xs) = elim (Bool-cases (p x)) [ inl e ↦ rw e refl | inr e ↦ rw e (empty-any p xs) ]

empty-select :
    {A : Type 0} (p : A → Bool) (xs : List A) → is_empty xs ≡ true → is_empty (select p xs) ≡ true
empty-select p [] h = refl
empty-select p (x ∷ xs) h = absurd cc

-- the last of four tests decides, when each implies the next
first_empty :
    (a b c d : Bool) (x y z w : String)
    → (a ≡ true → b ≡ true)
    → (b ≡ true → c ≡ true)
    → (c ≡ true → d ≡ true)
    → is_some (
        if a
        then some x
        else if b
        then some y
        else if c
        then some z
        else if d
        then some w
        else none)
      ≡ d
first_empty a b c d x y z w f g h = ground arith

true_not_false : true ≡ false → ⊥
true_not_false h = cc

module _ (L : Lexicon) (stored : Option (String → Option String)) where
  -- a proof of the item: bound to it, by the receipt and the validator it names, with a passing result
  -- and a concrete citation
  pub record Proves (i : EnrolledDoneWhenItem) (e : CompletionEvidence) : Type 0 where
    pub item : e.done_when_item_id ≡ some i.id
    pub receipt : e.receipt_name ≡ some i.required_receipt
    pub validator : e.validator ≡ some i.validator
    pub result : result_passes stored e ≡ true
    pub citation : evidence_is_concrete L e ≡ true

  proves : EnrolledDoneWhenItem → CompletionEvidence → Bool
  proves i e =
      option_eq e.done_when_item_id (some i.id)
      && (option_eq e.receipt_name (some i.required_receipt)
          && (option_eq e.validator (some i.validator)
              && (result_passes stored e && evidence_is_concrete L e)))

  proves-Proves :
      (i : EnrolledDoneWhenItem) (e : CompletionEvidence) → proves i e ≡ true → Proves i e
  unfolding proves
  proves-Proves i e h = ground (
    arith,
    option_eq-some e.done_when_item_id i.id,
    option_eq-some e.receipt_name i.required_receipt,
    option_eq-some e.validator i.validator,
  )

  Proves-proves :
      (i : EnrolledDoneWhenItem) (e : CompletionEvidence) → Proves i e → proves i e ≡ true
  unfolding proves
  Proves-proves i e h =
      rw
        (
          (option_eq-some e.done_when_item_id i.id).1 h.item,
          (option_eq-some e.receipt_name i.required_receipt).1 h.receipt,
          (option_eq-some e.validator i.validator).1 h.validator,
          h.result,
          h.citation,
        )
        refl

  issue_of-proves :
      (i : EnrolledDoneWhenItem) (es : List CompletionEvidence)
      → is_some (issue_of L stored i es) ≡ not (any (proves i) es)
  unfolding issue_of proves bound_to named_for validated_for passing
  issue_of-proves i es =
      let a = bound_to i es in
      let b = named_for i a in
      let c = validated_for i b in
      let d = passing L stored c in
      let p : CompletionEvidence → Bool = λ e. result_passes stored e && evidence_is_concrete L e in
      let v : CompletionEvidence → Bool = λ e. option_eq e.validator (some i.validator) in
      let n : CompletionEvidence → Bool = λ e. option_eq e.receipt_name (some i.required_receipt) in
      let k : CompletionEvidence → Bool = λ e. option_eq e.done_when_item_id (some i.id) in
      let left : is_empty d ≡ not (any p c) = empty-any p c in
      let mid = ap not (
        any-select p v b
        ∙ any-select (λ e. v e && p e) n a
        ∙ any-select (λ e. n e && (v e && p e)) k es) in
      first_empty (is_empty a) (is_empty b) (is_empty c) (is_empty d) _ _ _ _ (empty-select n a)
        (empty-select v b) (empty-select p c)
      ∙ (left ∙ mid)

  pub issue_of-none :
      (i : EnrolledDoneWhenItem) (es : List CompletionEvidence)
      → (is_some (issue_of L stored i es) ≡ false) ↔ Any (Proves i) es
  issue_of-none i es = rw (issue_of-proves i es) (
    λ h. any-Any (Proves i) (proves i) es (proves-Proves i) (ground (arith, h)),
    λ h. rw (Any-any (Proves i) (proves i) es (Proves-proves i) h) refl,
  )

  -- There is no issue if and only if every done item has, among the evidence, one proof bound to it,
  -- that names its receipt and its validator, with a passing result and a concrete citation.
  pub receipts_complete :
      (items : List EnrolledDoneWhenItem) (es : List CompletionEvidence)
      → (is_empty (completion_receipt_issues L stored items es) ≡ true)
        ↔ All (λ i. Any (Proves i) es) items
  unfolding completion_receipt_issues
  receipts_complete [] es = (λ h. tt, λ h. refl)
  receipts_complete (i ∷ items) es = elim (Option-cases (issue_of L stored i es)) [
    | inl n ↦
        let rest = receipts_complete items es in
        let proven = (issue_of-none i es).0 (rw n refl) in
        rw (n, completion_receipt_issues) (λ h. (proven, rest.0 h), λ h. rest.1 h.1)
    | inr (x, n) ↦
        rw (n, completion_receipt_issues)
          (
            λ h. absurd cc,
            λ h. absurd (true_not_false (sym (ap is_some n) ∙ (issue_of-none i es).1 h.0)),
          )
  ]

  Any-append :
      (P : CompletionEvidence → Type 0) (xs ys : List CompletionEvidence)
      → Any P xs
      → Any P (xs ++ ys)
  Any-append P [] ys h = absurd h
  Any-append P (x ∷ xs) ys (inl y) = inl y
  Any-append P (x ∷ xs) ys (inr i) = inr (Any-append P xs ys i)

  pub more_evidence :
      (items : List EnrolledDoneWhenItem) (es more : List CompletionEvidence)
      → All (λ i. Any (Proves i) es) items
      → All (λ i. Any (Proves i) (es ++ more)) items
  more_evidence [] es more h = tt
  more_evidence (i ∷ items) es more h =
      (Any-append (Proves i) es more h.0, more_evidence items es more h.1)

  pub require_completion_receipts-ok :
      (items : List EnrolledDoneWhenItem) (es : List CompletionEvidence)
      → is_ok (require_completion_receipts L items es)
        ≡ (not (is_empty items) && is_empty (completion_receipt_issues L none items es))
  unfolding require_completion_receipts
  require_completion_receipts-ok items es = ground arith

-- The constructor keeps the result, and refuses no cited line that is not blank.
pub completion_evidence-validator_result :
    (e : CompletionEvidence) {f : CompletionEvidence}
    → completion_evidence e ≡ ok f
    → f.validator_result ≡ e.validator_result
unfolding completion_evidence
completion_evidence-validator_result e {f = f} h = ground arith

-- the line alone, as evidence of a kind
pub completion_evidence-ok :
    (k : EvidenceKind) (line : String)
    → truthy line ≡ true
    → truthy (strip line) ≡ true
    → is_ok (
        completion_evidence (record {
          kind = k;
          citation = line;
          todo_item = none;
          done_when_item_id = none;
          receipt_name = none;
          validator = none;
          validator_result = none;
        }))
      ≡ true
unfolding completion_evidence citation_is_not_whitespace optional_strings_are_not_whitespace
completion_evidence-ok k line h j = rw (h, j) refl

module _ (L : Lexicon) where
  unproven_fails :
      (e : CompletionEvidence) → e.validator_result ≡ none → result_passes none e ≡ true → ⊥
  unfolding result_passes
  unproven_fails e h k = absurd (true_not_false (sym k ∙ rw h refl))

  no_proof :
      (i : EnrolledDoneWhenItem) (es : List CompletionEvidence)
      → All (λ e. e.validator_result ≡ none) es
      → Any (Proves L none i) es
      → ⊥
  no_proof i [] h k = absurd k
  no_proof i (e ∷ es) h (inl p) = unproven_fails e h.0 p.result
  no_proof i (e ∷ es) h (inr p) = no_proof i es h.1 p

  -- Without a result, no evidence lets a done transition pass.
  pub unproven_refused :
      (items : List EnrolledDoneWhenItem) (es : List CompletionEvidence)
      → All (λ e. e.validator_result ≡ none) es
      → is_ok (require_completion_receipts L items es) ≡ false
  unproven_refused [] es h = require_completion_receipts-ok L none [] es
  unproven_refused (i ∷ items) es h =
      elim (Bool-cases (is_empty (completion_receipt_issues L none (i ∷ items) es))) [
        | inl e ↦ absurd (no_proof i es h ((receipts_complete L none (i ∷ items) es).0 e).0)
        | inr e ↦ require_completion_receipts-ok L none (i ∷ items) es ∙ rw e refl
      ]
