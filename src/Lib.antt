-- ===== src/Lib.antt =====
-- Verification library of chitra, a monitor of coding-agent sessions (src/chitra).
--
-- The program's daemons share files: an incident log and a delivery ledger for each lane, a state
-- document of the host's load, and the records of goals. Each part below is modelled from its Python
-- source as data types, records and functions; a method that changes files takes the state and
-- returns the new one, and a raise is a value of `Result`. Times, texts of clocks, hashes, parsers
-- of the standard library and pydantic's reading and writing of a row are arguments.
--
-- Prelude: tests, lists, texts, results and Python's stable `sorted`, shared by all parts. Floats and
-- Digest: comparisons of floats, and hash functions, as parameters. Json: values of `json.loads`,
--   and what it raises.
--
-- PolicyConfig (src/chitra/policy_config.py): the load ladder's policy and its validators.
-- LoadShed (src/chitra/load_shed.py, src/chitra/rate_limit_state.py): `pressure_level`,
--   `pressure_is_clear`, `advance_load_state` and the running caps. LoadShed.Gates runs the sweeps of
--   a host as a fold over samples.
-- GoalRecord (src/chitra/goals.py) and ShedOrder (src/chitra/load_shed.py): which lanes may be shed
--   on a host, and in which order.
-- Ledger (src/chitra/ledger.py): the signed delivery ledger, `append_entry` and `verify_delivery`.
-- Journal (src/chitra/journal/models.py, src/chitra/journal/normalizers.py): the events and the input
--   that reaches a busy session.
-- Incident, Consumption, IncidentStore and Ladder (src/chitra/detect/ladder.py): the incident rows and
--   their stages, the proof that an order was consumed (it reads Ledger and Journal), the log of
--   incidents with the receipts that seal a rescue, and the ladder that decides on a finding (it reads
--   Consumption and writes the log).
--
-- Autonomy and Authorization (src/chitra/autonomy.py): the grants frozen with a goal with their
--   validators and defaults, and `_grant_result` and `authorize_action`, which read them.
-- CompletionGate, CompletionAudit and CompletionText (src/chitra/completion_gate.py): the receipts of
--   the frozen done items, the audit of a turn that claims completion, and the evidence that is read
--   from a pane's text. CloseGate (src/chitra/close_gate.py): the close of a goal, which reads
--   CompletionGate. The compiled patterns of src/chitra/lexicon.py are a parameter.
--
-- Supervision (src/chitra/supervision.py): the transition log of one lane as the text of its file,
--   `_load_unlocked`, `_append_unlocked`, `transition` and the look-ups, with torn last rows.
-- Queue (src/chitra/queue_state.py): the names, inodes and texts of a queue directory and the calls of
--   the operating system on them, any of which may fail. Queue.Moves is `_move_without_replace`,
--   Queue.Claims the reservations, claims and the sweep of stale claims, Queue.Results the terminal
--   results and `TerminalFinalization.apply`, Queue.Requeue the requeue sweep, Queue.Records the
--   control files and `locate_order`. Queue.Claims.Workers
--   runs workers as a step relation in which an operation is one step.
-- Merge (src/chitra/merge.py): `decide`, `merge` and `merge_outcome`, with gh as a function of the
--   commands before and the command, which answers or raises.
--
-- Loops over files and events are recursions on their lists, so no fuel is used. Whole-number settings
-- are natural numbers, since the validators refuse negative ones. Some error texts leave out the
-- identifiers that the source puts into them.
--
-- Not modelled: locks as such (an operation under a lock is one step; IncidentStore takes the log of
-- receipts as it was read, since other lanes share it and not the lock), the checks of a rescue bundle
-- and of a checkpoint receipt (a parameter of IncidentStore), the sampling of /proc, and the daemons'
-- processes, terminals and sockets.
pub mod Prelude
pub mod Floats
pub mod PolicyConfig
pub mod LoadShed
pub mod GoalRecord
pub mod ShedOrder
pub mod Digest
pub mod Ledger
pub mod Json
pub mod Journal
pub mod Incident
pub mod Consumption
pub mod IncidentStore
pub mod Ladder
pub mod Autonomy
pub mod Authorization
pub mod CompletionGate
pub mod CompletionAudit
pub mod CloseGate
pub mod CompletionText
pub mod Supervision
pub mod Queue
pub mod Merge
