-- ===== src/GoalRecord.antt =====
-- src/chitra/goals.py: the status of a goal, and the parts of a session reference. Of `GoalRecord`
-- the fields are those that the modelled code reads.
use chitra.Prelude.{String, Bool, true, false, List, [], ◌∷◌, split, truthy, if◌then◌else◌}

pub data GoalStatus : Type 0 where
  working held idle blocked turn_finished_unverified completion_disputed : GoalStatus
  done_pending_verification done_pending_close : GoalStatus

pub record GoalRecord : Type 0 where
  pub session_ref : String
  pub status : GoalStatus
  pub updated_at : String

abbrev pub is_held : GoalStatus → Bool
is_held held = true
is_held _ = false

first_part : List String → String
first_part [] = ""
first_part (host ∷ rest) = host

second_part : List String → String
second_part (host ∷ session ∷ rest) = if truthy session then session else host
second_part (host ∷ []) = host
second_part [] = ""

-- `session_ref.split(":", 1)[0]`: what stands before the first colon
unfoldable pub session_host : String → String
unfolding split first_part
session_host session_ref = first_part (split b':' session_ref)

unfoldable pub session_name : String → String
unfolding split second_part
session_name session_ref = second_part (split b':' session_ref)
