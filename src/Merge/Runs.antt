-- ===== src/Merge/Runs.antt =====
-- When a merge is run, and how it is pinned.
use chitra.Prelude.{
  ◌≡◌, refl, sym, ap, ◌∙◌, Bool, true, false, not, ◌&&◌, ◌||◌, Option, none, some, String, ◌==◌,
  List, [], ◌∷◌, ◌++◌, Result, ok, err, Bool-cases, Option-cases, Result-cases, inl, inr, arith,
  truthy, one_of, eqb, ok_inj, subst,
}
use chitra.Floats.{Floats}
use mathlib.Core.List.{append-nil}
use chitra.Merge.{
  GitHubIdentity, is_app, PullRequestState, MergePolicy, MergeDecision, Clock, ends_with, age_hours,
  holds_on, unless_stale, decide, MergeError, MergeRecord, MergeOutcome, CompletedProcess, Runner,
  merge_outcome, after_merge, read_outcome, merge_command, merged_record, run_merge, merge,
  outcome_of, outcome_command, split_repo, record_of,
}

module _ (F : Floats) (C : Clock F) where
  abbrev pub is_fresh : Option F.Float → F.Float → Bool
  is_fresh none limit = false
  is_fresh (some age) limit = not (F.lt limit age)

  -- all that a merge asks for
  abbrev pub may_merge : PullRequestState → MergePolicy F → GitHubIdentity → C.Moment → Bool
  may_merge s p i now =
      one_of s.repo p.allowed_repos
      && (is_app i.kind && (not (truthy p.app_login) || i.login == p.app_login))
      && not (ends_with s.author "[bot]")
      && one_of s.author p.lane_authors
      && is_fresh (age_hours F C s now) p.max_age_hours
      && not (truthy (holds_on F C p s.labels))
      && C.upper s.state == "OPEN"
      && not s.is_draft
      && C.upper s.mergeable == "MERGEABLE"
      && C.upper s.merge_state_status == "CLEAN"
      && C.upper s.checks_rollup == "SUCCESS"

not_ok :
    {e : MergeError} {r : MergeRecord} → ◌≡◌ {A = Result MergeError MergeRecord} (err e) (ok r) → ⊥
not_ok h = cc

neither : (a d : Bool) → (not a || d) ≡ true → (a && not d) ≡ false
neither a d h = ground arith

both : (a d : Bool) → (not a || d) ≡ false → (a && not d) ≡ true
both a d h = ground arith

identity_same : (a t e : Bool) → (a && (not t || e)) ≡ not (not a || (t && not e))
identity_same false t e = refl
identity_same true false e = refl
identity_same true true true = refl
identity_same true true false = refl

module _ (F : Floats) (C : Clock F) where
  decide-may_merge :
      (s : PullRequestState) (p : MergePolicy F) (i : GitHubIdentity) (now : C.Moment)
      → (decide F C s p i now).allowed ≡ may_merge F C s p i now
  unfolding decide unless_stale
  decide-may_merge s p i now = elim (Bool-cases (one_of s.repo p.allowed_repos)) [
    | inr a ↦ rw a refl
    | inl a ↦
        rw (a, identity_same (is_app i.kind) (truthy p.app_login) (i.login == p.app_login))
          (elim (Bool-cases
            (not (is_app i.kind) || (truthy p.app_login && not (i.login == p.app_login)))) [
              | inl b ↦ rw b refl
              | inr b ↦ rw b (elim (Bool-cases (ends_with s.author "[bot]")) [
                | inl e ↦ rw e refl
                | inr e ↦ rw e (elim (Bool-cases (one_of s.author p.lane_authors)) [
                  | inr f ↦ rw f refl
                  | inl f ↦ rw f (elim (Option-cases (age_hours F C s now)) [
                    | inl n ↦ rw (n, unless_stale) refl
                    | inr (age, n) ↦ elim (Bool-cases (F.lt p.max_age_hours age)) [
                      | inl m ↦ rw (n, unless_stale, m) refl
                      | inr m ↦
                          rw (n, unless_stale, m)
                            (elim (Bool-cases (truthy (holds_on F C p s.labels))) [
                              | inl g ↦ rw g refl
                              | inr g ↦ rw g (elim (Bool-cases (C.upper s.state == "OPEN")) [
                                | inr h ↦ rw h refl
                                | inl h ↦ rw h (elim (Bool-cases (s.is_draft)) [
                                  | inl i ↦ rw i refl
                                  | inr i ↦
                                      rw i (elim (Bool-cases (C.upper s.mergeable == "MERGEABLE")) [
                                        | inr j ↦ rw j refl
                                        | inl j ↦
                                            rw j
                                              (elim (Bool-cases
                                                (C.upper s.merge_state_status == "CLEAN")) [
                                                  | inr k ↦ rw k refl
                                                  | inl k ↦
                                                      rw k
                                                        (elim (Bool-cases
                                                          (C.upper s.checks_rollup == "SUCCESS")) [
                                                            | inr l ↦ rw l refl
                                                            | inl l ↦ rw l (refl)
                                                          ])
                                                ])
                                      ])
                                ])
                              ])
                            ])
                    ]
                  ])
                ])
              ])
            ])
  ]

module _ (F : Floats) (C : Clock F) where
  -- the merge of a pull request, if its branch still ends in the commit that was judged
  abbrev pub pinned_merge : PullRequestState → List String
  pinned_merge s =
      "gh"
      ∷ "pr"
      ∷ "merge"
      ∷ C.str_of s.number
      ∷ "--repo"
      ∷ s.repo
      ∷ "--squash"
      ∷ "--match-head-commit"
      ∷ s.head_oid
      ∷ []

module _ (F : Floats) (C : Clock F) (runner : Runner) where
  -- The runs of a merge: it declines and gives gh no command, the runner raises, gh refuses the
  -- pinned merge, or gh has done it.
  pub data IsMergeRun (s : PullRequestState) (p : MergePolicy F) (i : GitHubIdentity)
      (now : C.Moment) (dry_run : Bool) (log : List (List String))
      : Result MergeError MergeRecord × List (List String) → Type 0 where
    declined :
        {r : MergeRecord}
        → (may_merge F C s p i now && not dry_run) ≡ false
        → r.merged ≡ false
        → r.decision.allowed ≡ may_merge F C s p i now
        → IsMergeRun s p i now dry_run log (ok r, log)
    raised_by_runner :
        {e : MergeError}
        → (may_merge F C s p i now && not dry_run) ≡ true
        → runner log (pinned_merge F C s) ≡ err e
        → IsMergeRun s p i now dry_run log (err e, log ++ pinned_merge F C s ∷ [])
    refused_by_gh :
        {e : MergeError} (answer : CompletedProcess)
        → (may_merge F C s p i now && not dry_run) ≡ true
        → runner log (pinned_merge F C s) ≡ ok answer
        → eqb answer.returncode 0 ≡ false
        → IsMergeRun s p i now dry_run log (err e, log ++ pinned_merge F C s ∷ [])
    done_by_gh :
        {e : Result MergeError MergeRecord} (answer : CompletedProcess) (more : List (List String))
        → (may_merge F C s p i now && not dry_run) ≡ true
        → runner log (pinned_merge F C s) ≡ ok answer
        → eqb answer.returncode 0 ≡ true
        → ((r : MergeRecord) → e ≡ ok r → r.merged ≡ true)
        → IsMergeRun s p i now dry_run log (e, (log ++ pinned_merge F C s ∷ []) ++ more)

  after_outcome :
      (s : PullRequestState) (i : GitHubIdentity) (d : MergeDecision)
      (o : Result MergeError MergeOutcome × List (List String)) (r : MergeRecord)
      → (merged_record F C runner s i d o).0 ≡ ok r
      → r.merged ≡ true
  unfolding merged_record
  after_outcome s i d (err e, log) r h = absurd (not_ok h)
  after_outcome s i d (ok o, log) r h = ap (λ x. x.merged) (sym (ok_inj h))

  merged_log :
      (s : PullRequestState) (i : GitHubIdentity) (d : MergeDecision)
      (o : Result MergeError MergeOutcome) (log : List (List String))
      → (merged_record F C runner s i d (o, log)).1 ≡ log
  unfolding merged_record
  merged_log s i d (err e) log = refl
  merged_log s i d (ok o) log = refl

  outcome_log :
      (s : PullRequestState) (i : GitHubIdentity) (d : MergeDecision) (log : List (List String))
      → (more : List (List String)) × ((merged_record F C runner s i d
            (merge_outcome F C runner s log)).1
          ≡ log ++ more)
  unfolding merge_outcome outcome_of
  outcome_log s i d log = elim (Result-cases (split_repo s.repo)) [
    | inl (e, h) ↦ rw (h, outcome_of) ([], merged_log s i d (err e) log ∙ sym (append-nil log))
    | inr (parts, h) ↦
        rw (h, outcome_of)
          (
            outcome_command F C runner s parts ∷ [],
            merged_log s i d
                (read_outcome F C runner (runner log (outcome_command F C runner s parts)))
                (log ++ outcome_command F C runner s parts ∷ []),
          )
  ]

  pinned :
      (s : PullRequestState) (p : MergePolicy F) (i : GitHubIdentity) (now : C.Moment)
      (dry_run : Bool) (log : List (List String)) (d : MergeDecision)
      → (may_merge F C s p i now && not dry_run) ≡ true
      → IsMergeRun s p i now dry_run log (run_merge F C runner s i d log)
  unfolding run_merge after_merge merge_command
  pinned s p i now dry_run log d h =
      let tried = log ++ pinned_merge F C s ∷ [] in
      elim (Result-cases (runner log (pinned_merge F C s))) [
        | inl (e, q) ↦ rw (q, after_merge) (raised_by_runner h q)
        | inr (answer, q) ↦ elim (Bool-cases (eqb answer.returncode 0)) [
          | inr k ↦ rw (q, after_merge, k) (refused_by_gh answer h q k)
          | inl k ↦
              rw (q, after_merge, k)
                (let (more, e) = outcome_log s i d tried in
                  let r = merged_record F C runner s i d (merge_outcome F C runner s tried) in
                  subst (λ l. IsMergeRun s p i now dry_run log (r.0, l)) (sym e)
                    (done_by_gh answer more h q k
                      (after_outcome s i d (merge_outcome F C runner s tried))))
        ]
      ]

  -- A merge that is not a dry run gives gh a command exactly when the repository, the identity, the
  -- author, the age, the labels and the state of the pull request all allow it. The first command is
  -- `gh pr merge` of its number in its repository with `--match-head-commit` and the commit that was
  -- judged; what the runner raises goes on, and a record says that it merged only if gh returned 0.
  pub merge-IsMergeRun :
      (s : PullRequestState) (p : MergePolicy F) (i : GitHubIdentity) (now : C.Moment)
      (dry_run : Bool) (log : List (List String))
      → IsMergeRun s p i now dry_run log (merge F C runner s p i now dry_run log)
  unfolding merge record_of
  merge-IsMergeRun s p i now dry_run log =
      let same = decide-may_merge F C s p i now in
      elim (Bool-cases (not (decide F C s p i now).allowed || dry_run)) [
        | inl h ↦ rw h (
            declined
              (ap (λ b. b && not dry_run) (sym same)
                ∙ neither (decide F C s p i now).allowed dry_run h)
              refl same)
        | inr h ↦ rw h (
            pinned s p i now dry_run log (decide F C s p i now) (
              ap (λ b. b && not dry_run) (sym same)
              ∙ both (decide F C s p i now).allowed dry_run h))
      ]
