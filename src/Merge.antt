-- ===== src/Merge.antt =====
-- src/chitra/merge.py: whether a pull request may be merged, and the merge. The gh program, the clock,
-- the ISO 8601 parser, `str.upper` and `str(int)` are parameters; a run keeps the commands it gave to gh.
pub mod Runs
mod Examples
use Prim.Native.String.{◌++◌ as append}
use chitra.Prelude.{
  ℕ, String, ◌==◌, Bool, true, false, not, ◌&&◌, ◌||◌, Option, none, some, List, [], ◌∷◌, ◌++◌,
  find, if◌then◌else◌, Result, ok, err, eqb, truthy, one_of, codes, strip, split,
}
use chitra.Floats.{Floats}

pub data IdentityKind : Type 0 where
  app user unknown : IdentityKind

pub record GitHubIdentity : Type 0 where
  pub login : String
  pub kind : IdentityKind
  pub source : String

-- `GitHubIdentity.is_app`
unfoldable pub is_app : IdentityKind → Bool
is_app app = true
is_app _ = false

pub record PullRequestState : Type 0 where
  pub repo : String
  pub number : ℕ
  pub title : String
  pub url : String
  pub author : String
  pub is_draft : Bool
  pub state : String
  pub mergeable : String
  pub merge_state_status : String
  pub checks_rollup : String
  pub head_oid : String
  pub labels : List String
  pub updated_at : String

pub record MergePolicy (F : Floats) : Type 0 where
  pub allowed_repos : List String
  pub lane_authors : List String
  pub hold_labels : List String
  pub app_login : String
  pub max_age_hours : F.Float

pub data RefusalReason : Type 0 where
  allowed_ok repo_not_allowlisted author_not_a_lane author_is_a_bot stale_pull_request :
      RefusalReason
  hold_label_present draft not_mergeable merge_state_not_clean checks_not_successful : RefusalReason
  already_closed identity_not_app : RefusalReason

pub record MergeDecision : Type 0 where
  pub allowed : Bool
  pub reason : RefusalReason
  pub detail : String

-- s.endswith(ending)
unfoldable pub ends_with : String → String → Bool
ends_with String.[] e = "" == e
ends_with (String.◌∷◌ c s) e = let rest = ends_with s e in String.◌∷◌ c s == e || rest

-- fromisoformat(text.replace("Z", "+00:00")), the presence of a time zone, the hours from one moment
-- to another, and `str.upper`
pub record Clock (F : Floats) : Type 1 where
  pub Moment : Type 0
  pub parse : String → Option Moment
  pub is_aware : Moment → Bool
  pub hours_since : Moment → Moment → F.Float
  pub upper : String → String
  pub str_of : ℕ → String

abbrev first_or_empty : Option String → String
first_or_empty none = ""
first_or_empty (some s) = s

abbrev pub refuse : RefusalReason → String → MergeDecision
refuse r d = record { allowed = false; reason = r; detail = d }

module _ (F : Floats) (C : Clock F) where
  age_of : Option C.Moment → C.Moment → Option F.Float
  age_of none now = none
  age_of (some t) now = if C.is_aware t then some (C.hours_since t now) else none

  -- `PullRequestState.age_hours`
  unfoldable pub age_hours : PullRequestState → C.Moment → Option F.Float
  unfolding age_of
  age_hours s now = if not (truthy s.updated_at) then none else age_of (C.parse s.updated_at) now

  -- `MergePolicy.holds_on`
  unfoldable pub holds_on : MergePolicy F → List String → String
  holds_on p labels = first_or_empty (find (λ l. one_of l labels) p.hold_labels)

  -- the part of `decide` that reads the age
  unless_stale : Option F.Float → F.Float → MergeDecision → MergeDecision
  unless_stale none limit rest = refuse stale_pull_request "last-updated time could not be read"
  unless_stale (some age) limit rest =
      if F.lt limit age then refuse stale_pull_request "last touched past the bound" else rest

  pub decide : PullRequestState → MergePolicy F → GitHubIdentity → C.Moment → MergeDecision
  unfolding unless_stale ends_with is_app age_hours holds_on
  decide s p i now =
      if not (one_of s.repo p.allowed_repos)
      then refuse repo_not_allowlisted "not in the merge allowlist"
      else if not (is_app i.kind) || (truthy p.app_login && not (i.login == p.app_login))
      then refuse identity_not_app "merges must be attributed to the automation app"
      else if ends_with s.author "[bot]"
      then refuse author_is_a_bot "a dependency bump is not lane work"
      else if not (one_of s.author p.lane_authors)
      then refuse author_not_a_lane "not a declared lane author"
      else unless_stale (age_hours s now) p.max_age_hours (
          if truthy (holds_on p s.labels)
          then refuse hold_label_present "a person has taken this one"
          else if not (C.upper s.state == "OPEN")
          then refuse already_closed "pull request is not open"
          else if s.is_draft
          then refuse draft "pull request is a draft"
          else if not (C.upper s.mergeable == "MERGEABLE")
          then refuse not_mergeable "mergeable"
          else if not (C.upper s.merge_state_status == "CLEAN")
          then refuse merge_state_not_clean "mergeStateStatus is not CLEAN"
          else if not (C.upper s.checks_rollup == "SUCCESS")
          then refuse checks_not_successful "check rollup"
          else record {
            allowed = true;
            reason = allowed_ok;
            detail = "non-draft, mergeable, and every required check succeeded";
          })

pub record CompletedProcess : Type 0 where
  pub returncode : ℕ
  pub stdout : String
  pub stderr : String

pub data MergeError : Type 0 where
  merge_error : String → MergeError

pub record MergeRecord : Type 0 where
  pub repo : String
  pub number : ℕ
  pub url : String
  pub author : String
  pub head_oid : String
  pub decision : MergeDecision
  pub identity : GitHubIdentity
  pub merged : Bool
  pub merge_commit : String
  pub dry_run : Bool
  pub merged_by : String

pub record MergeOutcome : Type 0 where
  pub merged_by : String
  pub merge_commit : String

-- what gh answers to a command after the commands before, or what the runner raises
abbrev pub Runner : Type 0
Runner = List (List String) → List String → Result MergeError CompletedProcess

-- repo.partition("/")
split_at_slash : List String → String × String
split_at_slash [] = ("", "")
split_at_slash (w ∷ []) = (w, "")
split_at_slash (w ∷ v ∷ rest) = (w, rejoin v rest)
  where
    rejoin : String → List String → String
    rejoin v [] = v
    rejoin v (w ∷ rest) = append v (append "/" (rejoin w rest))

-- `_split_repo`
unfoldable pub split_repo : String → Result MergeError (String × String)
unfolding split_at_slash split
split_repo repo =
    let parts = split_at_slash (split 47 repo) in
    if not (truthy parts.0) || not (truthy parts.1)
    then err (merge_error "repo must be owner/name")
    else ok parts

-- the first and the second field of a tab-separated line
abbrev first_field : List String → String
first_field [] = ""
first_field (w ∷ ws) = w

abbrev second_field : List String → String
second_field [] = ""
second_field (w ∷ ws) = first_field ws

module _ (F : Floats) (C : Clock F) (runner : Runner) where
  read_outcome : Result MergeError CompletedProcess → Result MergeError MergeOutcome
  unfolding strip split
  read_outcome (err e) = err e
  read_outcome (ok r) =
      if not (eqb r.returncode 0)
      then ok (record { merged_by = ""; merge_commit = "" })
      else (let parts = split 9 (strip r.stdout) in
          ok (record { merged_by = first_field parts; merge_commit = second_field parts }))

  outcome_command : PullRequestState → String × String → List String
  outcome_command s (owner, name) =
      "gh"
      ∷ "api"
      ∷ append "/repos/"
          (append owner (append "/" (append name (append "/pulls/" (C.str_of s.number)))))
      ∷ "--jq"
      ∷ "[(.merged_by.login // \"\"), (.merge_commit_sha // \"\")] | @tsv"
      ∷ []

  outcome_of :
      PullRequestState
      → Result MergeError (String × String)
      → List (List String)
      → Result MergeError MergeOutcome × List (List String)
  unfolding read_outcome outcome_command
  outcome_of s (err e) log = (err e, log)
  outcome_of s (ok parts) log =
      (read_outcome (runner log (outcome_command s parts)), log ++ outcome_command s parts ∷ [])

  unfoldable pub merge_outcome :
      PullRequestState → List (List String) → Result MergeError MergeOutcome × List (List String)
  unfolding outcome_of split_repo
  merge_outcome s log = outcome_of s (split_repo s.repo) log

  -- pinned to the commit that was judged
  unfoldable pub merge_command : PullRequestState → List String
  merge_command s =
      "gh"
      ∷ "pr"
      ∷ "merge"
      ∷ C.str_of s.number
      ∷ "--repo"
      ∷ s.repo
      ∷ "--squash"
      ∷ "--match-head-commit"
      ∷ s.head_oid
      ∷ []

  record_of : PullRequestState → GitHubIdentity → MergeDecision → Bool → MergeRecord
  record_of s i d dry_run = record {
    repo = s.repo;
    number = s.number;
    url = s.url;
    author = s.author;
    head_oid = s.head_oid;
    decision = d;
    identity = i;
    merged = false;
    merge_commit = "";
    dry_run = dry_run;
    merged_by = "";
  }

  merged_record :
      PullRequestState
      → GitHubIdentity
      → MergeDecision
      → Result MergeError MergeOutcome × List (List String)
      → Result MergeError MergeRecord × List (List String)
  unfolding record_of
  merged_record s i d (err e, log) = (err e, log)
  merged_record s i d (ok o, log) = (
    ok (record (record_of s i d false) {
      merged = true;
      merge_commit = o.merge_commit;
      merged_by = o.merged_by;
    }),
    log,
  )

  -- after the merge command
  after_merge :
      PullRequestState
      → GitHubIdentity
      → MergeDecision
      → List (List String)
      → Result MergeError CompletedProcess
      → Result MergeError MergeRecord × List (List String)
  unfolding merge_outcome merged_record
  after_merge s i d tried (err e) = (err e, tried)
  after_merge s i d tried (ok r) =
      if not (eqb r.returncode 0)
      then (err (merge_error "gh pr merge failed"), tried)
      else merged_record s i d (merge_outcome s tried)

  run_merge :
      PullRequestState
      → GitHubIdentity
      → MergeDecision
      → List (List String)
      → Result MergeError MergeRecord × List (List String)
  unfolding after_merge merge_command
  run_merge s i d log =
      after_merge s i d (log ++ merge_command s ∷ []) (runner log (merge_command s))

  pub merge :
      PullRequestState
      → MergePolicy F
      → GitHubIdentity
      → C.Moment
      → Bool
      → List (List String)
      → Result MergeError MergeRecord × List (List String)
  unfolding decide run_merge record_of
  merge s p i now dry_run log =
      let decision = decide F C s p i now in
      if not decision.allowed || dry_run
      then (ok (record_of s i decision dry_run), log)
      else run_merge s i decision log
