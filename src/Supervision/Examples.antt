-- ===== src/Supervision/Examples.antt =====
-- A first move of a lane, a second one, one that is refused, and a log of three rows.
use Prim.Native.String.{◌++◌ as append}
use chitra.Prelude.{
  ℕ, String, ◌==◌, ◌≡◌, refl, sym, subst, ok_inj, inr, true, false, Option, none, some, List, [],
  ◌∷◌, ◌++◌, ok, if◌then◌else◌, ◌+◌,
}
use chitra.Prelude.Lines.{up_to_last_break}
use chitra.Digest.{Digest}
use chitra.Supervision.{
  SupervisionRecord, SupervisionState, action_queued, completion_verified, RowFormat, load,
  append_row, contents, repair, last, event_id, with_verified_event_id, allowed_transition, Disk,
  os_error, has_content, checked,
}
use chitra.Supervision.Rows.{load-append_row, IsRow}
use chitra.Supervision.Crashes.{torn_append, failed_append, IsKept, IsCut}
use chitra.Supervision.States.{IsLater, load-IsLater}
use chitra.Supervision.Transition.{Move}

abbrev digest : Digest
digest = record { sha256 = λ s. s; hmac_sha256 = λ k s. s; json_quote = λ s. s }

abbrev row : ℕ → SupervisionState → SupervisionRecord
row n s = record {
  revision = n;
  event_id = "sha256:";
  at_time = "t";
  lane = "lane-1";
  session_ref = "host/lane-1";
  goal_version = 1;
  goal_digest = "d";
  state = s;
  reason = "turn ended";
  finding_fingerprint = "";
  stage = "";
  order_id = "";
  order_marker = "";
  observed_event_id = "";
  turn_boundary_event_id = "";
  attempt = 0;
  next_retry_at = "";
  obstacle = "";
  recovery_count = 0;
}

-- three rows, told apart by their revision
abbrev format : RowFormat
format = record {
  read = λ s.
      if s == "{1}\n"
      then some (row 1 action_queued)
      else if s == "{2}\n"
      then some (row 2 completion_verified)
      else if s == "{3}\n"
      then some (row 3 completion_verified)
      else none;
  dump = λ r. elim r.state [ action_queued ↦ "{1}" | _ ↦ "{2}" ];
  canonical_json = λ r. "";
  is_aware_time = λ s. true;
}

abbrev move : Move
move = record {
  state = action_queued;
  session_ref = "host/lane-1";
  goal_version = 1;
  goal_digest_value = "d";
  reason = "turn ended";
  at_time = none;
  finding_fingerprint = none;
  stage = none;
  order_id = none;
  order_marker = none;
  observed_event_id = none;
  turn_boundary_event_id = none;
  attempt = none;
  next_retry_at = none;
  obstacle = none;
  recovery_count = none;
}

abbrev disk : Disk
disk = record { repair_fails = false; cut_after = none }

-- the line is written, and `os.fsync` raises
abbrev unsynced : Disk
unsynced = record { repair_fails = false; cut_after = some "{2}\n" }

abbrev empty_log : Option String
empty_log = none

abbrev two_rows : Option String
two_rows = some "{1}\n{2}\n"

two_rows_loaded :
    load digest format "lane-1" two_rows ≡ ok (row 1 action_queued ∷ row 2 completion_verified ∷ [])
unfolding load with_verified_event_id allowed_transition
two_rows_loaded = refl

load-append_row_example :
    load digest format "lane-1"
      (append_row digest format "lane-1" disk (some "{1}\n{to") (row 2 completion_verified)).1
    ≡ ok ((row 1 action_queued ∷ []) ++ row 2 completion_verified ∷ [])
unfolding load append_row with_verified_event_id up_to_last_break has_content allowed_transition
load-append_row_example =
    load-append_row digest format "lane-1" disk (some "{1}\n{to") (row 2 completion_verified)
      (row 1 action_queued ∷ []) refl refl
      (record { no_break = refl; begins = refl; shown = refl; read_back = refl })

torn_append_example :
    load digest format "lane-1" (some (append (contents (repair two_rows)) "{"))
    ≡ load digest format "lane-1" two_rows
torn_append_example =
    torn_append digest format "lane-1" two_rows (row 2 completion_verified) "{" "2}" refl refl

the_row :
    (rs : List SupervisionRecord) (q : SupervisionRecord)
    → load digest format "lane-1" (some "{1}\n{to") ≡ ok rs
    → checked digest format "lane-1" (last rs) (row 2 completion_verified) ≡ ok q
    → q ≡ row 2 completion_verified
unfolding load with_verified_event_id allowed_transition checked up_to_last_break last
the_row rs q h k =
    let one : row 1 action_queued ∷ [] ≡ rs = ok_inj h in
    sym (
      ok_inj (
        subst (λ z. checked digest format "lane-1" (last z) (row 2 completion_verified) ≡ ok q)
          (sym one) k))

failed_append_example :
    IsKept digest format "lane-1"
      (some "{2}\n")
      (some "{1}\n{to")
      (append_row digest format "lane-1" unsynced (some "{1}\n{to") (row 2 completion_verified)).1
unfolding append_row with_verified_event_id allowed_transition load up_to_last_break has_content
failed_append_example =
    failed_append digest format "lane-1" unsynced (some "{1}\n{to") (row 2 completion_verified)
      os_error
      (λ rs q h k.
        subst
          (λ z.
            IsRow digest format "lane-1" z
            × ((part : String) → some "{2}\n" ≡ some part → IsCut digest format "lane-1" part z))
          (sym (the_row rs q h k))
          (
            record { no_break = refl; begins = refl; shown = refl; read_back = refl },
            λ part c. inr (cc c),
          ))
      refl

load-IsLater_example : IsLater (row 1 action_queued) (0 + 1) (row 2 completion_verified)
load-IsLater_example =
    load-IsLater digest format "lane-1" two_rows [] (row 1 action_queued) []
      (row 2 completion_verified) [] two_rows_loaded
