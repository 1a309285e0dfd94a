-- ===== src/Ledger/Examples.antt =====
-- Instances of the ledger theorems, with a toy hash that keeps the text.
use Prim.Native.String.{◌++◌ as append}
use chitra.Prelude.{
  String, ◌≡◌, refl, ap, subst, true, is_ascii, false, none, some, [], ◌∷◌, ◌++◌, ok, join, strip,
}
use chitra.Digest.{Digest}
use chitra.Ledger.{
  LedgerEntry, Rows, no_legacy, sign_versioned, unsigned, append_entry, verify_delivery, read_row,
  message_hash, LedgerFile, lines_of, compare_digest,
}
use chitra.Ledger.Delivery.{
  verify_delivery-append_entry, verify_delivery_sound, HasProof, ReadsBack, SignsInAscii,
}
use chitra.Ledger.Ambiguity.{signature_ambiguous}

abbrev toy : Digest
toy = record { sha256 = λ s. s; hmac_sha256 = λ key text. append key text; json_quote = λ s. s }

abbrev order : LedgerEntry
order = record {
  order_id = "o1";
  session_ref = "h:a";
  tag = "[C]";
  routing_hint = none;
  native_session_id = none;
  task_type = none;
  resolved_zdr = false;
  sig_v = 1;
  message_hash = "";
  sent_at = "";
  signature = "";
  legacy = no_legacy;
}

abbrev signature : String
signature = "kt|h:a|[C]|go|||0"

signs : sign_versioned toy "k" (unsigned toy order "go" none "t") ≡ ok signature
unfolding sign_versioned unsigned join
signs = refl

abbrev entry : LedgerEntry
entry = record order { sig_v = 4; message_hash = "go"; sent_at = "t"; signature = signature }

-- a file format that knows one row
abbrev one_row : Rows
one_row = record { parse = λ line. some entry; dump = λ e. "row" }

reads_back : ReadsBack toy one_row "k" "go" order none "t"
unfolding read_row unsigned strip
reads_back s h =
    let same : signature ≡ s = cc (signs, h) in ap (λ s. some (record entry { signature = s })) same

in_ascii : SignsInAscii toy one_row "k" "go" order none "t"
in_ascii s h = let same : signature ≡ s = cc (signs, h) in subst (λ t. is_ascii t ≡ true) same refl

abbrev no_rows : LedgerFile
no_rows = record { lines = []; tail = "" }

abbrev one_line : LedgerFile
one_line = record { lines = "row" ∷ []; tail = "" }

-- a torn line swallows the next row
after_torn_line :
    append_entry toy one_row (record { lines = []; tail = "{" }) order "go" "k" none "t"
    ≡ ok (record { lines = "{row" ∷ []; tail = "" }, entry)
unfolding append_entry sign_versioned unsigned join
after_torn_line = refl

verify_delivery-append_entry_example :
    (file' : LedgerFile) × (e : LedgerEntry) × (found : LedgerEntry) × (append_entry toy one_row
        no_rows order "go" "k" none "t"
      ≡ ok (file', e))
    × (file' ≡ record { lines = [] ++ "row" ∷ []; tail = "" })
    × (verify_delivery toy one_row (some file') "k" "h:a" "go" (some "o1") ≡ ok (some found))
verify_delivery-append_entry_example =
    verify_delivery-append_entry toy one_row "k" "go" order none "t" no_rows refl tt reads_back
      in_ascii

found_again : verify_delivery toy one_row (some one_line) "k" "h:a" "go" none ≡ ok (some entry)
unfolding verify_delivery read_row message_hash join strip compare_digest
found_again = refl

verify_delivery_sound_example : HasProof toy one_row "k" "h:a" "go" none entry (lines_of one_line)
verify_delivery_sound_example =
    verify_delivery_sound toy one_row "k" "h:a" "go" none one_line entry found_again

signature_ambiguous_example :
    sign_versioned toy "k" (record order { session_ref = append "a" (append "|" "b"); tag = "c" })
    ≡ sign_versioned toy "k" (record order { session_ref = "a"; tag = append "b" (append "|" "c") })
signature_ambiguous_example = signature_ambiguous toy "k" "a" "b" "c" order
