-- ===== src/Ledger/Delivery.antt =====
-- What a signed row proves, and that every delivery appended is found again.
use Prim.Native.String.{◌++◌ as append}
use text.Mathlib.TextLemmas.{nil-append}
use chitra.Prelude.{
  String, ◌≡◌, refl, sym, ap, ◌∙◌, subst, All-append, is_some, ◌==◌, eq_iff, eq_refl, Bool, true,
  false, Option, none, some, List, [], ◌∷◌, ◌++◌, Result, ok, err, arith, All, Bool-cases, inl, inr,
  Result-cases, is_ascii,
}
use chitra.Digest.{Digest}
use chitra.Ledger.{
  LedgerEntry, LedgerError, Rows, message_hash, sign_versioned, sign_fields, version_fields,
  verify_entry, compare_digest, LedgerFile, lines_of, unsigned, append_entry, read_row,
  order_matches, row_matches, proves, scan, verify_delivery,
}

module _ (D : Digest) where
  -- the signature does not cover itself
  sign_versioned-signature :
      (key s : String) (e : LedgerEntry)
      → sign_versioned D key (record e { signature = s }) ≡ sign_versioned D key e
  unfolding sign_versioned
  sign_versioned-signature key s e = refl

  verify_signed :
      (key s : String) (e : LedgerEntry)
      → sign_versioned D key e ≡ ok s
      → is_ascii s ≡ true
      → verify_entry D (record e { signature = s }) key ≡ ok true
  unfolding verify_entry compare_digest
  verify_signed key s e h a = rw (h, compare_digest, a, eq_refl s)

  module _ (R : Rows) (key session nudge : String) (order_id : Option String) where
    -- The row that stands in a line: what reading the line gives, for the right session and text and
    -- order, with a signature that verifies.
    pub record IsProof (line : String) (e : LedgerEntry) : Type 0 where
      pub read : read_row D R line ≡ some e
      pub session_ref : e.session_ref ≡ session
      pub digest : e.message_hash ≡ message_hash D nudge
      pub order : order_matches D R order_id e ≡ true
      pub signed : verify_entry D e key ≡ ok true

    pub data HasProof (e : LedgerEntry) : List String → Type 0 where
      at_head : {line : String} {lines : List String} → IsProof line e → HasProof e (line ∷ lines)
      later : {line : String} {lines : List String} → HasProof e lines → HasProof e (line ∷ lines)

    row_matches-true :
        (e : LedgerEntry)
        → row_matches D R session (message_hash D nudge) order_id e ≡ true
        → (e.session_ref ≡ session)
          × (e.message_hash ≡ message_hash D nudge)
          × (order_matches D R order_id e ≡ true)
    unfolding row_matches
    row_matches-true e h =
        ground (arith, eq_iff e.session_ref session, eq_iff e.message_hash (message_hash D nudge))

    true-row_matches :
        (e : LedgerEntry)
        → e.session_ref ≡ session
        → e.message_hash ≡ message_hash D nudge
        → order_matches D R order_id e ≡ true
        → row_matches D R session (message_hash D nudge) order_id e ≡ true
    unfolding row_matches
    true-row_matches e a b c =
        ground (arith, eq_iff e.session_ref session, eq_iff e.message_hash (message_hash D nudge))

    proves-true :
        (line : String) (o : Option LedgerEntry)
        → read_row D R line ≡ o
        → proves D R key session (message_hash D nudge) order_id o ≡ ok true
        → (e : LedgerEntry) × (o ≡ some e) × IsProof line e
    unfolding proves
    proves-true line none r h = cc
    proves-true line (some e) r h =
        elim (Bool-cases (row_matches D R session (message_hash D nudge) order_id e)) [
          | inl m ↦
              let (a, b, c) = row_matches-true e m in
              (
                e,
                refl,
                record { read = r; session_ref = a; digest = b; order = c; signed = rw m at h },
              )
          | inr m ↦ let no_proof : ok false ≡ ok true = rw m at h in absurd (cc no_proof)
        ]

    proof-proves :
        (line : String) (e : LedgerEntry)
        → IsProof line e
        → proves D R key session (message_hash D nudge) order_id (read_row D R line) ≡ ok true
    unfolding proves
    proof-proves line e p =
        rw (p.read, proves) (rw (true-row_matches e p.session_ref p.digest p.order) p.signed)

    -- a row whose signature can be computed, and compared with the one that it carries
    abbrev pub IsReadable : String → Type 0
    IsReadable line =
        (e : LedgerEntry)
        → read_row D R line ≡ some e
        → ((s : String) × (sign_versioned D key e ≡ ok s)) × (is_ascii e.signature ≡ true)

    proves_total :
        (o : Option LedgerEntry)
        → ((e : LedgerEntry)
            → o ≡ some e
            → ((s : String) × (sign_versioned D key e ≡ ok s)) × (is_ascii e.signature ≡ true))
        → (b : Bool) × (proves D R key session (message_hash D nudge) order_id o ≡ ok b)
    unfolding proves verify_entry compare_digest
    proves_total none h = (false, refl)
    proves_total (some e) h =
        let ((s, signed), ascii) = h e refl in
        elim (Bool-cases (row_matches D R session (message_hash D nudge) order_id e)) [
          | inl m ↦ (s == e.signature, rw m (rw (signed, compare_digest, ascii)))
          | inr m ↦ (false, rw m)
        ]

    abbrev scan_file : List String → Result LedgerError (Option LedgerEntry)
    scan_file = scan D R key session (message_hash D nudge) order_id

    abbrev row_result : String → Result LedgerError Bool
    row_result line = proves D R key session (message_hash D nudge) order_id (read_row D R line)

    scan-err :
        (line : String) (lines : List String) (x : LedgerError)
        → row_result line ≡ err x
        → scan_file (line ∷ lines) ≡ err x
    unfolding scan
    scan-err line lines x h = rw h

    scan-true :
        (line : String) (lines : List String)
        → row_result line ≡ ok true
        → scan_file (line ∷ lines) ≡ ok (read_row D R line)
    unfolding scan
    scan-true line lines h = rw h

    scan-false :
        (line : String) (lines : List String)
        → row_result line ≡ ok false
        → scan_file (line ∷ lines) ≡ scan_file lines
    unfolding scan
    scan-false line lines h = rw h

    scan_sound :
        (lines : List String) (e : LedgerEntry) → scan_file lines ≡ ok (some e) → HasProof e lines
    unfolding scan
    scan_sound [] e h = cc
    scan_sound (line ∷ lines) e h = elim (Result-cases (row_result line)) [
      | inl (x, r) ↦ cc (scan-err line lines x r)
      | inr (true, r) ↦
          let (e', o, p) = proves-true line (read_row D R line) refl r in
          let same : e' ≡ e = cc (scan-true line lines r) in at_head (subst (IsProof line) same p)
      | inr (false, r) ↦ later (scan_sound lines e (cc (scan-false line lines r)))
    ]

    scan-earlier :
        (line : String) (lines : List String) (b : Bool) (e : LedgerEntry)
        → row_result line ≡ ok b
        → scan_file lines ≡ ok (some e)
        → (e' : LedgerEntry) × (scan_file (line ∷ lines) ≡ ok (some e'))
    scan-earlier line lines true e r h =
        let (e', o, _) = proves-true line (read_row D R line) refl r in
        (e', scan-true line lines r ∙ ap ok o)
    scan-earlier line lines false e r h = (e, scan-false line lines r ∙ h)

    scan_complete :
        (lines : List String) (e : LedgerEntry)
        → All IsReadable lines
        → HasProof e lines
        → (e' : LedgerEntry) × (scan_file lines ≡ ok (some e'))
    scan_complete [] e h p = elim p [ ]
    scan_complete (line ∷ lines) e h (at_head p) =
        (e, scan-true line lines (proof-proves line e p) ∙ ap ok p.read)
    scan_complete (line ∷ lines) e h (later rest) =
        let (e', found) = scan_complete lines e h.1 rest in
        let (b, r) = proves_total (read_row D R line) h.0 in scan-earlier line lines b e' r found

    -- An entry that the check returns stands in the ledger for this very delivery: its session, the
    -- hash of the text and the order agree, and its signature verifies under the key.
    pub verify_delivery_sound :
        (file : LedgerFile) (e : LedgerEntry)
        → verify_delivery D R (some file) key session nudge order_id ≡ ok (some e)
        → HasProof e (lines_of file)
    unfolding verify_delivery
    verify_delivery_sound file e h = scan_sound (lines_of file) e h

    HasProof-append :
        (file : List String) (line : String) (e : LedgerEntry)
        → IsProof line e
        → HasProof e (file ++ line ∷ [])
    HasProof-append [] line e p = at_head p
    HasProof-append (l ∷ file) line e p = later (HasProof-append file line e p)

  module _ (R : Rows) (key nudge : String) (order : LedgerEntry) (sent_at : Option String)
      (now : String) where
    abbrev pub entry_with : String → LedgerEntry
    entry_with s = record (unsigned D order nudge sent_at now) { signature = s }

    -- What pydantic promises of the row that is written: its line reads back as the entry.
    abbrev pub ReadsBack : Type 0
    ReadsBack =
        (s : String)
        → sign_versioned D key (unsigned D order nudge sent_at now) ≡ ok s
        → read_row D R (R.dump (entry_with s)) ≡ some (entry_with s)

    -- The signature, a hexdigest, is ASCII.
    abbrev pub SignsInAscii : Type 0
    SignsInAscii =
        (s : String)
        → sign_versioned D key (unsigned D order nudge sent_at now) ≡ ok s
        → is_ascii s ≡ true

    sign_fields-ok :
        (e : LedgerEntry) (fields : Option (List String))
        → is_some fields ≡ true
        → (s : String) × (sign_fields D key e fields ≡ ok s)
    unfolding sign_fields
    sign_fields-ok e none h = cc
    sign_fields-ok e (some extra) h = (_, refl)

    -- the two versions in use are supported
    version_fields-unsigned : is_some (version_fields (unsigned D order nudge sent_at now)) ≡ true
    unfolding version_fields unsigned
    version_fields-unsigned = ground arith

    unsigned-signs :
        (s : String) × (sign_versioned D key (unsigned D order nudge sent_at now) ≡ ok s)
    unfolding sign_versioned
    unsigned-signs =
        sign_fields-ok (unsigned D order nudge sent_at now)
          (version_fields (unsigned D order nudge sent_at now)) version_fields-unsigned

    append_entry-signed :
        (file : LedgerFile)
        → (s : String) × (sign_versioned D key (unsigned D order nudge sent_at now) ≡ ok s)
          × (append_entry D R file order nudge key sent_at now
              ≡ ok (
                record {
                  lines = file.lines ++ append file.tail (R.dump (entry_with s)) ∷ [];
                  tail = "";
                },
                entry_with s,
              ))
    unfolding append_entry
    append_entry-signed file = let (s, h) = unsigned-signs in (s, h, rw h)

    entry-IsProof :
        (s : String)
        → sign_versioned D key (unsigned D order nudge sent_at now) ≡ ok s
        → ReadsBack
        → SignsInAscii
        → IsProof R key order.session_ref nudge
            (some order.order_id)
            (R.dump (entry_with s))
            (entry_with s)
    entry-IsProof s h law ascii = record {
      read = law s h;
      session_ref = unfold unsigned in refl;
      digest = unfold unsigned in refl;
      order = unfold order_matches unsigned in eq_refl order.order_id;
      signed = verify_signed key s (unsigned D order nudge sent_at now) h (ascii s h);
    }

    entry-IsReadable :
        (s : String)
        → sign_versioned D key (unsigned D order nudge sent_at now) ≡ ok s
        → ReadsBack
        → SignsInAscii
        → (e : LedgerEntry) → read_row D R (R.dump (entry_with s)) ≡ some e
        → ((s' : String) × (sign_versioned D key e ≡ ok s')) × (is_ascii e.signature ≡ true)
    entry-IsReadable s h law ascii e r =
        let same : some (entry_with s) ≡ some e = sym (law s h) ∙ r in
        let eq : entry_with s ≡ e = cc same in
        (
          (
            s,
            ap (sign_versioned D key) (sym eq)
                ∙ sign_versioned-signature key s (unsigned D order nudge sent_at now)
                ∙ h,
          ),
          subst (λ (z : LedgerEntry). is_ascii z.signature ≡ true) eq (ascii s h),
        )

    -- Appending to a ledger whose last line is finished adds one line at its end, and from then on the
    -- delivery is found for its session, text and order under the same key, if every earlier row that
    -- can be read has a supported signature version and an ASCII signature, pydantic reads back what it
    -- wrote, and the new signature is ASCII.
    pub verify_delivery-append_entry :
        (file : LedgerFile)
        → file.tail ≡ ""
        → All (IsReadable R key order.session_ref nudge (some order.order_id)) file.lines
        → ReadsBack
        → SignsInAscii
        → (file' : LedgerFile) × (entry : LedgerEntry) × (found : LedgerEntry) × (append_entry D R
              file order nudge key sent_at now
            ≡ ok (file', entry))
          × (file' ≡ record { lines = file.lines ++ R.dump entry ∷ []; tail = "" })
          × (verify_delivery D R (some file') key order.session_ref nudge (some order.order_id)
              ≡ ok (some found))
    unfolding verify_delivery
    verify_delivery-append_entry file whole readable law ascii =
        let (s, h, appended) = append_entry-signed file in
        let line = R.dump (entry_with s) in
        let (found, p) =
          scan_complete R key order.session_ref nudge (some order.order_id)
            (file.lines ++ line ∷ []) (entry_with s)
            (All-append (IsReadable R key order.session_ref nudge (some order.order_id)) file.lines
              (line ∷ []) readable (entry-IsReadable s h law ascii, tt))
            (HasProof-append R key order.session_ref nudge (some order.order_id) file.lines line
              (entry_with s) (entry-IsProof s h law ascii)) in
        (
          record { lines = file.lines ++ line ∷ []; tail = "" },
          entry_with s,
          found,
          appended
              ∙ ap (λ t. ok (record { lines = file.lines ++ t ∷ []; tail = "" }, entry_with s))
                  (ap (λ t. append t line) whole ∙ nil-append line),
          refl,
          p,
        )
