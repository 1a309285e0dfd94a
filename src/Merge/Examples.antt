-- ===== src/Merge/Examples.antt =====
-- A pull request that may be merged, and one on hold.
use chitra.Prelude.{ℕ, ◌≡◌, refl, true, false, some, [], ◌∷◌, Result, ok, strip, split}
use chitra.Floats.{whole_floats}
use chitra.Merge.{
  GitHubIdentity, app, PullRequestState, MergePolicy, Clock, Runner, decide, merge, MergeError,
  MergeOutcome, merge_outcome, split_repo, ends_with, is_app, holds_on, age_hours,
}
use chitra.Merge.Runs.{IsMergeRun, merge-IsMergeRun}

abbrev clock : Clock whole_floats
clock = record {
  Moment = ℕ;
  parse = λ s. some 3;
  is_aware = λ t. true;
  hours_since = λ t now. 1;
  upper = λ s. s;
  str_of = λ n. "7";
}

abbrev runner : Runner
runner log command = ok (record { returncode = 0; stdout = "robot[bot]\tabc"; stderr = "" })

abbrev policy : MergePolicy whole_floats
policy = record {
  allowed_repos = "owner/name" ∷ [];
  lane_authors = "lane-1" ∷ [];
  hold_labels = "chitra-hold" ∷ "hold" ∷ [];
  app_login = "";
  max_age_hours = 24;
}

abbrev identity : GitHubIdentity
identity = record { login = "robot[bot]"; kind = app; source = "" }

abbrev request : PullRequestState
request = record {
  repo = "owner/name";
  number = 7;
  title = "";
  url = "";
  author = "lane-1";
  is_draft = false;
  state = "OPEN";
  mergeable = "MERGEABLE";
  merge_state_status = "CLEAN";
  checks_rollup = "SUCCESS";
  head_oid = "f00";
  labels = [];
  updated_at = "2026-08-16";
}

allowed : (decide whole_floats clock request policy identity 5).allowed ≡ true
unfolding decide is_app ends_with holds_on age_hours
allowed = refl

held :
    (decide whole_floats clock (record request { labels = "hold" ∷ [] }) policy identity 5).allowed
    ≡ false
unfolding decide is_app ends_with holds_on age_hours
held = refl

merge-IsMergeRun_example :
    IsMergeRun whole_floats clock runner request policy identity 5 false []
      (merge whole_floats clock runner request policy identity 5 false [])
merge-IsMergeRun_example =
    merge-IsMergeRun whole_floats clock runner request policy identity 5 false []

-- When GitHub names no merger, the stripped tab lets the commit stand for the merger.
abbrev nameless : Runner
nameless log command = ok (record { returncode = 0; stdout = "\tabc\n"; stderr = "" })

abbrev misread : Result MergeError MergeOutcome
misread = ok (record { merged_by = "abc"; merge_commit = "" })

commit_as_merger : (merge_outcome whole_floats clock nameless request []).0 ≡ misread
unfolding merge_outcome split_repo strip split
commit_as_merger = refl
