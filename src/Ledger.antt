-- ===== src/Ledger.antt =====
-- src/chitra/ledger.py: the signed, append-only delivery ledger. The file is its finished lines and
-- what stands after the last line break; pydantic's reading and writing of a row is a parameter (`Rows`).
pub mod Delivery
pub mod Ambiguity
mod Examples
use Prim.Native.String.{◌++◌ as append}
use chitra.Prelude.{
  ℕ, String, ◌≡◌, ◌==◌, Bool, true, false, ◌&&◌, ◌||◌, Option, none, some, List, [], ◌∷◌, ◌++◌,
  if◌then◌else◌, Result, ok, err, ◌>>=◌, strip, truthy, join, eqb, is_ascii,
}
use chitra.Digest.{Digest}

-- `raise ValueError(f"unsupported signature version: {sig_v}")`, and the `TypeError` of
-- `hmac.compare_digest` on a text that is not ASCII
pub data LedgerError : Type 0 where
  unsupported_version : ℕ → LedgerError
  type_error : LedgerError

pub record LegacySignatureFields : Type 0 where
  pub routing_hint_source : String
  pub resolved_model : Option String
  pub resolved_harness : Option String

pub record LedgerEntry : Type 0 where
  pub order_id : String
  pub session_ref : String
  pub tag : String
  pub routing_hint : Option String
  pub native_session_id : Option String
  pub task_type : Option String
  pub resolved_zdr : Bool
  pub sig_v : ℕ
  pub message_hash : String
  pub sent_at : String
  pub signature : String
  pub legacy : LegacySignatureFields

-- `_LegacySignatureFields()`
abbrev pub no_legacy : LegacySignatureFields
no_legacy = record { routing_hint_source = "unset"; resolved_model = none; resolved_harness = none }

-- s or ""
abbrev pub text_or_empty : Option String → String
text_or_empty none = ""
text_or_empty (some s) = s

abbrev pub flag : Bool → String
flag true = "1"
flag false = "0"

-- The fields that version `sig_v` adds to the common ones; `none` is an unsupported version.
version_fields : LedgerEntry → Option (List String)
version_fields e =
    if eqb e.sig_v 1
    then some []
    else if eqb e.sig_v 2
    then some (text_or_empty e.task_type ∷ e.legacy.routing_hint_source ∷ [])
    else if eqb e.sig_v 3
    then some (
        text_or_empty e.task_type
        ∷ e.legacy.routing_hint_source
        ∷ text_or_empty e.legacy.resolved_model
        ∷ text_or_empty e.legacy.resolved_harness
        ∷ flag e.resolved_zdr
        ∷ [])
    else if eqb e.sig_v 4
    then some (text_or_empty e.task_type ∷ flag e.resolved_zdr ∷ [])
    else if eqb e.sig_v 5
    then some
        (text_or_empty e.task_type ∷ flag e.resolved_zdr ∷ text_or_empty e.native_session_id ∷ [])
    else none

common_fields : LedgerEntry → List String
common_fields e =
    e.sent_at ∷ e.session_ref ∷ e.tag ∷ e.message_hash ∷ text_or_empty e.routing_hint ∷ []

-- `rows.model_validate_json` and `entry.model_dump_json`
pub record Rows : Type 0 where
  pub parse : String → Option LedgerEntry
  pub dump : LedgerEntry → String

pub record LedgerFile : Type 0 where
  -- the finished lines, without their breaks
  pub lines : List String
  -- what a torn write left after the last break
  pub tail : String

-- the lines that a reader goes over
abbrev pub lines_of : LedgerFile → List String
lines_of f = if f.tail == "" then f.lines else f.lines ++ f.tail ∷ []

module _ (D : Digest) where
  open D use {sha256, hmac_sha256}

  -- `nudge.encode("utf-8", errors="replace")` changes no text that UTF-8 can encode
  unfoldable pub message_hash : String → String
  message_hash nudge = sha256 nudge

  sign_fields : String → LedgerEntry → Option (List String) → Result LedgerError String
  unfolding common_fields
  sign_fields key e none = err (unsupported_version e.sig_v)
  sign_fields key e (some extra) = ok (hmac_sha256 key (join "|" (common_fields e ++ extra)))

  -- `_sign_versioned` on the fields of an entry; its `signature` is not read
  unfoldable pub sign_versioned : String → LedgerEntry → Result LedgerError String
  unfolding sign_fields version_fields
  sign_versioned key e = sign_fields key e (version_fields e)

  -- `hmac.compare_digest`; the expected text, a hexdigest, is ASCII
  unfoldable pub compare_digest : String → String → Result LedgerError Bool
  compare_digest expected signature =
      if is_ascii signature then ok (expected == signature) else err type_error

  unfoldable pub verify_entry : LedgerEntry → String → Result LedgerError Bool
  unfolding sign_versioned compare_digest
  verify_entry e key = do expected ← sign_versioned key e; compare_digest expected e.signature

  -- `sent_at or now`
  stamp_of : Option String → String → String
  stamp_of none now = now
  stamp_of (some s) now = if truthy s then s else now

  is_bound : Option String → Bool
  is_bound none = false
  is_bound (some s) = truthy s

  -- the entry before it is signed
  unfoldable pub unsigned : LedgerEntry → String → Option String → String → LedgerEntry
  unfolding message_hash stamp_of is_bound
  unsigned order nudge sent_at now = record order {
    sig_v = if is_bound order.native_session_id then 5 else 4;
    message_hash = message_hash nudge;
    sent_at = stamp_of sent_at now;
    signature = "";
    legacy = no_legacy;
  }

  module _ (R : Rows) where
    open R use {parse, dump}

    -- The file after the call, and the entry. `order` holds the caller's six fields. The row goes to
    -- the end of the file as it is: after a torn line, onto that line.
    pub append_entry :
        LedgerFile
        → LedgerEntry
        → String
        → String
        → Option String
        → String
        → Result LedgerError (LedgerFile × LedgerEntry)
    unfolding sign_versioned unsigned
    append_entry file order nudge key sent_at now = do
      let e = unsigned order nudge sent_at now
      signature ← sign_versioned key e
      let entry = record e { signature = signature }
      ok (record { lines = file.lines ++ append file.tail (dump entry) ∷ []; tail = "" }, entry)

    -- the entry of a line: `none` is a `continue`
    unfoldable pub read_row : String → Option LedgerEntry
    read_row line = let text = strip line in if text == "" then none else parse text

    pub order_matches : Option String → LedgerEntry → Bool
    order_matches none e = true
    order_matches (some order_id) e = e.order_id == order_id

    row_matches : String → String → Option String → LedgerEntry → Bool
    unfolding order_matches
    row_matches session digest order_id e =
        e.session_ref == session && e.message_hash == digest && order_matches order_id e

    -- does the row prove the delivery? The signature is computed only for a row that matches.
    proves : String → String → String → Option String → Option LedgerEntry → Result LedgerError Bool
    unfolding row_matches verify_entry
    proves key session digest order_id none = ok false
    proves key session digest order_id (some e) =
        if row_matches session digest order_id e then verify_entry e key else ok false

    pub scan :
        String
        → String
        → String
        → Option String
        → List String
        → Result LedgerError (Option LedgerEntry)
    unfolding read_row proves
    scan key session digest order_id [] = ok none
    scan key session digest order_id (line ∷ lines) =
        let rest = scan key session digest order_id lines in
        do
          found ← proves key session digest order_id (read_row line)
          if found then ok (read_row line) else rest

    -- `none` for the file is a ledger that does not exist
    pub verify_delivery :
        Option LedgerFile
        → String
        → String
        → String
        → Option String
        → Result LedgerError (Option LedgerEntry)
    unfolding scan message_hash
    verify_delivery none key session nudge order_id = ok none
    verify_delivery (some file) key session nudge order_id =
        scan key session (message_hash nudge) order_id (lines_of file)
