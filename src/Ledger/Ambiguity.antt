-- ===== src/Ledger/Ambiguity.antt =====
-- The signed text of a row does not determine its fields.
use Prim.Native.String.{◌++◌ as append}
use text.Mathlib.TextLemmas.{append_assoc}
use chitra.Prelude.{String, ◌≡◌, refl, Option, none, some, List, join}
use chitra.Digest.{Digest}
use chitra.Ledger.{LedgerEntry, sign_fields, version_fields, sign_versioned}

module _ (D : Digest) (key session x tag : String) (e : LedgerEntry) where
  abbrev left_entry : LedgerEntry
  left_entry = record e { session_ref = append session (append "|" x); tag = tag }

  abbrev right_entry : LedgerEntry
  right_entry = record e { session_ref = session; tag = append x (append "|" tag) }

  fields_ambiguous :
      (extra : Option (List String))
      → sign_fields D key left_entry extra ≡ sign_fields D key right_entry extra
  unfolding sign_fields join
  fields_ambiguous none = refl
  fields_ambiguous (some extra) = simp append_assoc

  -- The fields are joined by "|" with nothing escaped: for every key and every hash function, an
  -- entry whose session reference ends in "|x" has the signature of the entry whose tag begins with
  -- "x|" instead.
  pub signature_ambiguous :
      sign_versioned D key (record e { session_ref = append session (append "|" x); tag = tag })
      ≡ sign_versioned D key (record e { session_ref = session; tag = append x (append "|" tag) })
  unfolding sign_versioned
  signature_ambiguous = fields_ambiguous (version_fields e)
