-- ===== src/Supervision.antt =====
-- src/chitra/supervision.py: the transition log of one lane. A file is its text, `none` where there
-- is none. The JSON reader and writer of a row, and the ISO 8601 parser, are parameters.
pub mod Rows
pub mod Crashes
pub mod States
pub mod Transition
mod Examples
use Prim.Native.String.{◌++◌ as append}
use Prim.Native.Char.{code}
use chitra.Prelude.{
  ℕ, ◌+◌, String, ◌==◌, Bool, true, false, not, ◌&&◌, ◌||◌, Option, none, some, List, [], ◌∷◌, ◌++◌,
  all, find, reverse, if◌then◌else◌, Result, ok, err, ◌>>=◌, ◌>>◌, require, eqb, leb, truthy, codes,
  is_alnum, is_name_char, length, strip,
}
use chitra.Prelude.Lines.{keep_lines, ends_line, up_to_last_break, row_line}
use chitra.Digest.{Digest}

pub data SupervisionState : Type 0 where
  observing action_pending action_queued : SupervisionState
  awaiting_progress blocked completion_verified : SupervisionState

pub record SupervisionRecord : Type 0 where
  pub revision : ℕ
  pub event_id : String
  pub at_time : String
  pub lane : String
  pub session_ref : String
  pub goal_version : ℕ
  pub goal_digest : String
  pub state : SupervisionState
  pub reason : String
  pub finding_fingerprint : String
  pub stage : String
  pub order_id : String
  pub order_marker : String
  pub observed_event_id : String
  pub turn_boundary_event_id : String
  pub attempt : ℕ
  pub next_retry_at : String
  pub obstacle : String
  pub recovery_count : ℕ

pub data SupervisionError : Type 0 where
  value_error : String → SupervisionError
  os_error : SupervisionError

-- what the operating system does with an append: whether the calls of the repair raise, and how much
-- of the row's line is in the file when a later call (`os.open`, `os.fchmod`, `os.write`, `os.fsync`)
-- raises; `none` where none raises
pub record Disk : Type 0 where
  pub repair_fails : Bool
  pub cut_after : Option String

-- `_ALLOWED_TRANSITIONS`
unfoldable pub allowed_transition : SupervisionState → SupervisionState → Bool
allowed_transition observing _ = true
allowed_transition action_pending action_pending = true
allowed_transition action_pending action_queued = true
allowed_transition action_pending blocked = true
allowed_transition action_pending completion_verified = true
allowed_transition action_pending _ = false
allowed_transition action_queued observing = false
allowed_transition action_queued _ = true
allowed_transition awaiting_progress action_queued = false
allowed_transition awaiting_progress _ = true
allowed_transition blocked _ = true
allowed_transition completion_verified completion_verified = true
allowed_transition completion_verified _ = false

-- [A-Za-z0-9][A-Za-z0-9_.-]{0,127}
pub lane_codes : List ℕ → Bool
lane_codes [] = false
lane_codes (c ∷ cs) = is_alnum c && all is_name_char cs && leb (length cs) 127

pub last : List SupervisionRecord → Option SupervisionRecord
last [] = none
last (r ∷ []) = some r
last (r ∷ s ∷ rest) = last (s ∷ rest)

-- the checks on two neighbouring rows
pub link : SupervisionRecord → SupervisionRecord → Result SupervisionError (Unit {0})
link previous current = do
  require (eqb current.revision (previous.revision + 1))
      (value_error "supervision revisions are not contiguous")
  require (current.session_ref == previous.session_ref) (value_error "supervision session changed")
  require (allowed_transition previous.state current.state)
      (value_error "invalid supervision transition")

pub chain : List SupervisionRecord → Result SupervisionError (Unit {0})
unfolding link
chain [] = ok tt
chain (r ∷ []) = ok tt
chain (r ∷ s ∷ rest) = do link r s; chain (s ∷ rest)

-- model_validate_json(line), and model_dump_json(by_alias=True); `canonical_json` writes a row
-- without its event id
pub record RowFormat : Type 0 where
  pub read : String → Option SupervisionRecord
  pub dump : SupervisionRecord → String
  pub canonical_json : SupervisionRecord → String
  -- does `datetime.fromisoformat` read an aware time?
  pub is_aware_time : String → Bool

-- bool(raw.strip()) on bytes, which strips ASCII blanks alone
unfoldable pub has_content : String → Bool
has_content String.[] = false
has_content (String.◌∷◌ c s) =
    not ((leb 9 (code c) && leb (code c) 13) || eqb (code c) 32) || has_content s

-- not payload
abbrev pub no_text : String → Bool
no_text String.[] = true
no_text (String.◌∷◌ c s) = false

-- `_repair_incomplete_tail_unlocked`
pub repair : Option String → Option String
unfolding ends_line up_to_last_break
repair none = none
repair (some s) = some (if no_text s || ends_line s then s else up_to_last_break s)

pub expected_revision : Option SupervisionRecord → ℕ
expected_revision none = 1
expected_revision (some p) = p.revision + 1

follows : Option SupervisionRecord → SupervisionRecord → Result SupervisionError (Unit {0})
follows none r = ok tt
follows (some p) r = do
  require (r.session_ref == p.session_ref)
      (value_error "supervision session cannot change within one lane ledger")
  require (allowed_transition p.state r.state) (value_error "invalid supervision transition")

abbrev pub contents : Option String → String
contents none = ""
contents (some s) = s

module _ (D : Digest) (R : RowFormat) where
  pub event_id : SupervisionRecord → String
  event_id r = append "sha256:" (D.sha256 (R.canonical_json (record r { event_id = "" })))

  pub with_verified_event_id : SupervisionRecord → Result SupervisionError SupervisionRecord
  unfolding event_id
  with_verified_event_id r =
      if not (truthy r.event_id)
      then ok (record r { event_id = event_id r })
      else if not (r.event_id == event_id r)
      then err (value_error "supervision event_id does not match its row")
      else ok r

  read_row : Option SupervisionRecord → Result SupervisionError SupervisionRecord
  unfolding with_verified_event_id
  read_row none = err (value_error "invalid supervision row")
  read_row (some r) = with_verified_event_id r

  module _ (lane : String) where
    load_row : String → Result SupervisionError SupervisionRecord
    unfolding read_row
    load_row raw = do
      r ← read_row (R.read raw)
      require (r.lane == lane) (value_error "supervision row lane mismatch")
      ok r

    pub load_rows : List String → Result SupervisionError (List SupervisionRecord)
    unfolding load_row ends_line has_content
    load_rows [] = ok []
    load_rows (raw ∷ lines) =
        let rest = load_rows lines in
        if not (ends_line raw)
        then rest
        else if not (has_content raw)
        then rest
        else (do r ← load_row raw; rs ← rest; ok (r ∷ rs))

    pub load : Option String → Result SupervisionError (List SupervisionRecord)
    unfolding load_rows chain keep_lines
    load none = ok []
    load (some s) = do records ← load_rows (keep_lines s); chain records; ok records

    pub checked :
        Option SupervisionRecord → SupervisionRecord → Result SupervisionError SupervisionRecord
    unfolding expected_revision follows with_verified_event_id
    checked previous r = do
      require (r.lane == lane) (value_error "supervision row lane does not match")
      require (eqb r.revision (expected_revision previous))
          (value_error "supervision revision is not the next one")
      follows previous r
      with_verified_event_id r

    -- the write, once the row is checked
    written :
        Option String
        → Option String
        → Result SupervisionError SupervisionRecord
        → Result SupervisionError SupervisionRecord × Option String
    written cut file (err e) = (err e, file)
    written none file (ok r) = (ok r, some (append (contents file) (row_line (R.dump r))))
    written (some part) file (ok r) = (err os_error, some (append (contents file) part))

    append_checked :
        Disk
        → Option String
        → Result SupervisionError (List SupervisionRecord)
        → SupervisionRecord
        → Result SupervisionError SupervisionRecord × Option String
    unfolding written checked repair last
    append_checked d file (err e) r = (err e, file)
    append_checked d file (ok records) r =
        if d.repair_fails
        then (err os_error, file)
        else written d.cut_after (repair file) (checked (last records) r)

    -- `append`: what it returns or raises, and the file that it leaves
    pub append_row :
        Disk
        → Option String
        → SupervisionRecord
        → Result SupervisionError SupervisionRecord × Option String
    unfolding append_checked load
    append_row d file r = append_checked d file (load file) r
