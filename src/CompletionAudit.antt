-- ===== src/CompletionAudit.antt =====
-- src/chitra/completion_gate.py, `evaluate_completion_claim`: the audit of a turn that claims
-- completion.
mod Picks
pub mod Verdicts
mod Examples
use Prim.Native.String.{◌++◌ as append}
use chitra.Prelude.{
  ℕ, String, ◌==◌, Bool, true, false, not, ◌&&◌, ◌||◌, Option, none, some, List, [], ◌∷◌, ◌++◌, map,
  any, all, select, is_empty, if◌then◌else◌, Result, ok, err, ◌>>=◌, ◌>>◌, require, truthy, one_of,
  option_eq, join, contains, length,
}
use chitra.CompletionGate.{
  kind_eq, Lexicon, EvidenceKind, artifact, deploy, live_verify, merged_pr, failure,
  CompletionEvidence, EnrolledDoneWhenItem, GateError, value_error, or_empty, evidence_is_concrete,
  completion_receipt_issues,
}

pub record TodoItem : Type 0 where
  pub text : String
  pub status : String
  pub id : Option String
  pub validator : Option String
  pub required_receipt : Option String

pub record CompletionAudit : Type 0 where
  pub clean : Bool
  pub todo_residue : List String
  pub deferral_matches : List (String × String)
  pub evidence_gap : Bool
  pub invalid_evidence : List String
  pub per_item_evidence_gap : List String
  pub posture_mismatch : Bool
  pub summary : String

pub record GatePolicy : Type 0 where
  pub deferral_phrases : List String
  pub complete_todo_statuses : List String
  pub required_evidence : List String

-- GatePolicy(…)
pub gate_policy : GatePolicy → Result GateError GatePolicy
gate_policy p = do
  require (all (λ name. one_of name ("deploy" ∷ "live_verify" ∷ [])) p.required_evidence)
      (value_error "required_evidence contains unsupported values")
  ok p

-- GatePolicy(), with the shipped deferral phrases
pub default_gate_policy : List String → GatePolicy
default_gate_policy shipped = record {
  deferral_phrases = shipped;
  complete_todo_statuses = "done" ∷ [];
  required_evidence = "deploy" ∷ "live_verify" ∷ [];
}

-- the policy given, or the default one
unfoldable pub chosen_policy : List String → Option GatePolicy → GatePolicy
unfolding default_gate_policy
chosen_policy shipped none = default_gate_policy shipped
chosen_policy shipped (some p) = p

pub check_todo_residue : List TodoItem → List String → List String
check_todo_residue items complete =
    map (λ i. i.text) (select (λ i. not (one_of i.status complete)) items)

module _ (L : Lexicon) where
  pub scan_deferral_language : String → List String → List (String × String)
  scan_deferral_language text phrases =
      map (λ phrase. (phrase, "DEFERRAL_STUB"))
        (select (λ phrase. contains (L.lower phrase) (L.lower text)) phrases)

  is_kind : EvidenceKind → CompletionEvidence → Bool
  unfolding kind_eq
  is_kind k e = kind_eq k e.kind

  -- the kinds that the policy requires and no valid citation has
  missing_kind : GatePolicy → List CompletionEvidence → String → EvidenceKind → String → List String
  unfolding is_kind
  missing_kind policy valid name k message =
      if one_of name policy.required_evidence && not (any (is_kind k) valid)
      then message ∷ []
      else []

  pub missing_evidence : GatePolicy → List CompletionEvidence → List String
  unfolding missing_kind
  missing_evidence policy valid =
      missing_kind policy valid "deploy" deploy "deploy evidence citation"
      ++ missing_kind policy valid "live_verify" live_verify "live-verify evidence citation"

  module _ (verified_results : Option (String → Option String)) where
    -- the tests on a finished item: its id, its validator and its receipt
    item_gap :
        TodoItem → Option String → Option String → Option String → List CompletionEvidence → Bool
    unfolding or_empty
    item_gap i none validator receipt valid =
        not (any (λ e. option_eq e.todo_item (some i.text)) valid)
    item_gap i (some id) validator receipt valid =
        not (truthy (or_empty validator))
        || not (truthy (or_empty receipt))
        || not (
            is_empty (
              completion_receipt_issues L verified_results
                (record {
                  id = id;
                  text = i.text;
                  validator = or_empty validator;
                  required_receipt = or_empty receipt;
                }
                  ∷ [])
                valid))

    pub has_gap : GatePolicy → List CompletionEvidence → TodoItem → Bool
    unfolding item_gap
    has_gap policy valid i =
        one_of i.status policy.complete_todo_statuses
        && item_gap i i.id i.validator i.required_receipt valid

    pub per_item_evidence_gap : GatePolicy → List CompletionEvidence → List TodoItem → List String
    unfolding has_gap
    per_item_evidence_gap policy valid items =
        map (λ i. i.text) (select (has_gap policy valid) items)

    -- repr(xs)
    repr_list : List String → String
    repr_list xs = append "[" (append (join ", " (map L.repr xs)) "]")

    -- `if xs: gaps.append(…)`
    gap_if : Bool → String → List String
    gap_if present gap = if present then gap ∷ [] else []

    pub blocked_todos : List TodoItem → List String
    blocked_todos items =
        map (λ i. i.text)
          (select (λ i. one_of (L.lower i.status) ("blocked" ∷ "stalled" ∷ [])) items)

    -- the audit, from the six lists that it collects
    audit_of :
        List String
        → List (String × String)
        → List String
        → List String
        → List String
        → List String
        → Bool
        → CompletionAudit
    unfolding repr_list gap_if
    audit_of todo_residue deferral_matches missing invalid gaps blocked posture_mismatch =
        let evidence_gap = not (is_empty missing) || not (is_empty invalid) in
        if not (
          not (is_empty todo_residue)
          || not (is_empty deferral_matches)
          || evidence_gap
          || not (is_empty gaps)
          || posture_mismatch)
        then record {
          clean = true;
          todo_residue = [];
          deferral_matches = [];
          evidence_gap = false;
          invalid_evidence = [];
          per_item_evidence_gap = [];
          posture_mismatch = false;
          summary =
              "clean: cited deploy and live verification evidence and per-item proof validate";
        }
        else record {
          clean = false;
          todo_residue = todo_residue;
          deferral_matches = deferral_matches;
          evidence_gap = evidence_gap;
          invalid_evidence = invalid;
          per_item_evidence_gap = gaps;
          posture_mismatch = posture_mismatch;
          summary = append "completion dispute: " (
              join "; " (
                gap_if (not (is_empty todo_residue)) (
                  append (L.str (length todo_residue))
                    (append " non-done todo item(s): " (repr_list todo_residue)))
                ++ gap_if (not (is_empty deferral_matches)) (
                    append "deferral language detected: "
                      (repr_list (map (λ m. m.0) deferral_matches)))
                ++ gap_if (not (is_empty missing)) (append "missing " (join ", " missing))
                ++ gap_if (not (is_empty invalid))
                    (append "bare or non-concrete evidence assertions: " (repr_list invalid))
                ++ gap_if (not (is_empty gaps))
                    (append "missing per-item verification: " (repr_list gaps))
                ++ gap_if posture_mismatch (
                    append "blocked todo posture has no open ask or blocker: "
                      (repr_list blocked))));
        }

    pub valid_evidence : List CompletionEvidence → List CompletionEvidence
    valid_evidence es = select (evidence_is_concrete L) es

    invalid_evidence : List CompletionEvidence → List String
    invalid_evidence es = map (λ e. e.citation) (select (λ e. not (evidence_is_concrete L e)) es)

    pub evaluate_completion_claim :
        List String
        → List TodoItem
        → String
        → List CompletionEvidence
        → Option GatePolicy
        → List String
        → List String
        → CompletionAudit
    unfolding check_todo_residue scan_deferral_language missing_evidence per_item_evidence_gap
        blocked_todos audit_of valid_evidence invalid_evidence
    evaluate_completion_claim shipped items transcript evidence given open_asks blockers =
        let policy = chosen_policy shipped given in
        let valid = valid_evidence evidence in
        let blocked = blocked_todos items in
        audit_of (check_todo_residue items policy.complete_todo_statuses)
          (scan_deferral_language transcript policy.deferral_phrases)
          (missing_evidence policy valid) (invalid_evidence evidence)
          (per_item_evidence_gap policy valid items) blocked
          (not (is_empty blocked) && is_empty open_asks && is_empty blockers)
