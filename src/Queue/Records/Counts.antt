-- ===== src/Queue/Records/Counts.antt =====
-- A retry count that is recorded is read back.
use chitra.Prelude.{
  and-true, subst, ℕ, ◌+◌, String, ◌≡◌, refl, sym, ap, ◌∙◌, Bool, true, false, ◌&&◌, Option, none,
  some, ◌∷◌, Result, ok, err, ok_inj, Bool-cases, Option-cases, inl, inr, if◌then◌else◌, codes,
  arith,
}
use chitra.Queue.{
  deferred, QueuePath, Entry, file, symlink, QueueError, value_error, os_error, file_not_found,
  file_exists, subdir_rank, Files, Os, Io, pure, raise, caught, catch, ◌>>◌, lookup, add, remove,
  target, read_text, text_of, write, same_path, same_entry, rename, rename_at, create, create_at,
  make_directory, make_at, Kind, absent, directory, symlinked, other, is_directory, real_kind,
  order_id_codes, require_safe_order_id, require_real_directory,
}
use chitra.Queue.Entries.{lookup-add, same_path_sound, eqb_sound, eqb_same}
use chitra.Queue.Results.{attempts, retry_state}
use chitra.Queue.Results.Arrive.{Post, raised}
use chitra.Queue.Records.{write_json_atomic, record_attempt, beside, on_error}

-- a path leads to a text
abbrev Reads : QueuePath → String → Files → Type 0
Reads p t s = read_text p s ≡ some t

false-true : false ≡ true → ⊥
false-true h = cc

write_same : (i : ℕ) (t : String) (f : ℕ → String) → write i t f i ≡ t
write_same i t f = ground arith

entry_of : (n : ℕ) (o : Option Entry) → same_entry (file n) o ≡ true → o ≡ some (file n)
unfolding same_entry
entry_of n none h = absurd (false-true h)
entry_of n (some (symlink t)) h = absurd (false-true h)
entry_of n (some (file j)) h = ap (λ i. some (file i)) (sym (eqb_sound n j h))

module _ (os : Os) (p : QueuePath) (t : String) (s : Files) where
  abbrev made : Files
  made = record s {
    entries = (beside os p, file s.next) ∷ s.entries;
    text = write s.next t s.text;
    next = s.next + 1;
  }

  -- the text, and the directory
  abbrev Written : Files → Type 0
  Written u = Reads p t u × (real_kind (u.kind p.dir) ≡ true)

  from_entry : (u : Files) → u.text ≡ made.text → lookup p u ≡ some (file s.next) → Reads p t u
  unfolding text_of
  from_entry u a b =
      (λ i. text_of (target (b i)) (a i)) ∙ ap (λ x. some x) (write_same s.next t s.text)

  renamed : real_kind (s.kind p.dir) ≡ true → Post Written (rename os (beside os p) p made)
  unfolding rename rename_at
  renamed k = elim (Bool-cases (os.rename_fails (beside os p) p)) [
    | inl a ↦ rw a (raised Written os_error made)
    | inr a ↦ elim (Bool-cases (same_path (beside os p) p)) [
      | inl b ↦
          rw (a, lookup-add (beside os p) (file s.next) s, rename_at, b)
            (λ x y. (
              from_entry made refl (
                  ap (λ q. lookup q made) (sym (same_path_sound (beside os p) p b))
                  ∙ lookup-add (beside os p) (file s.next) s),
              k,
            ))
      | inr b ↦ elim (Bool-cases (same_entry (file s.next) (lookup p made))) [
        | inl c ↦
            rw (a, lookup-add (beside os p) (file s.next) s, rename_at, b, c)
              (λ x y. (from_entry made refl (entry_of s.next (lookup p made) c), k))
        | inr c ↦ elim (Bool-cases (is_directory (s.kind p.dir))) [
          | inr d ↦
              rw (a, lookup-add (beside os p) (file s.next) s, rename_at, b, c, d)
                (raised Written file_not_found made)
          | inl d ↦
              rw (a, lookup-add (beside os p) (file s.next) s, rename_at, b, c, d)
                (λ x y. (
                  from_entry (add p (file s.next) (remove (beside os p) (remove p made))) refl
                      (lookup-add p (file s.next) (remove (beside os p) (remove p made))),
                  k,
                ))
        ]
      ]
    ]
  ]

post_catch :
    {A : Type 0} (Q : Files → Type 0) (r : Result QueueError A × Files) (h : QueueError → Io A)
    → Post Q r
    → ((e : QueueError) (t : Files) → Post Q (h e t))
    → Post Q (caught r pure h)
post_catch Q (ok a, t) h f g = f
post_catch Q (err e, t) h f g = g e t

post_raise :
    {A B : Type 0} (Q : Files → Type 0) (r : Result QueueError A × Files) (e : QueueError)
    → Post {A = B} Q (caught r (λ _. raise e) raise)
post_raise Q (ok a, t) e = raised Q e t
post_raise Q (err x, t) e = raised Q x t

module _ (os : Os) (p : QueuePath) (t : String) (cleanup : Bool) where
  written_file :
      (v : Files)
      → real_kind (v.kind p.dir) ≡ true
      → Post (Written os p t v) (
          (create os (beside os p) t
              >> catch (rename os (beside os p) p) pure (on_error os p cleanup))
            v)
  unfolding create create_at on_error
  written_file v k = elim (Bool-cases (os.create_fails (beside os p))) [
    | inl a ↦ rw a (raised (Written os p t v) os_error v)
    | inr a ↦ elim (Option-cases (lookup (beside os p) v)) [
      | inr (x, b) ↦ rw (a, b, create_at) (raised (Written os p t v) file_exists v)
      | inl b ↦ elim (Bool-cases (is_directory (v.kind p.dir))) [
        | inr c ↦ rw (a, b, create_at, c) (raised (Written os p t v) file_not_found v)
        | inl c ↦
            rw (a, b, create_at, c)
              (post_catch (Written os p t v) (rename os (beside os p) p (made os p t v)) _
                (renamed os p t v k) (λ e u. post_raise (Written os p t v) _ e))
      ]
    ]
  ]

  written_at :
      (c : Kind) (s : Files)
      → s.kind p.dir ≡ c
      → Post (Written os p t s) (
          caught
            (make_at p.dir c s)
            (λ _.
              create os (beside os p) t
              >> catch (rename os (beside os p) p) pure (on_error os p cleanup))
            raise)
  unfolding make_at real_kind
  written_at directory s h = written_file s (ap real_kind h)
  written_at absent s h =
      written_file _ (unfold real_kind in rw (eqb_same (subdir_rank p.dir)) refl)
  written_at symlinked s h = raised (Written os p t s) file_exists s
  written_at other s h = raised (Written os p t s) file_exists s

not_ok : {e : QueueError} {n : ℕ} → ◌≡◌ {A = Result QueueError ℕ} (err e) (ok n) → ⊥
not_ok h = cc

module _ (os : Os) (count : String → Option ℕ) (dump : ℕ → String) (i : String) where
  -- the count of a state whose file reads as a text
  abbrev counted : Option String → ℕ
  counted text = elim text [ none ↦ 0 | some t ↦ elim (count t) [ none ↦ 0 | some n ↦ n ] ]

  attempts_value :
      (s : Files)
      → order_id_codes (codes i) ≡ true
      → real_kind (s.kind deferred) ≡ true
      → (attempts count i s).0 ≡ ok (counted (read_text (retry_state i) s))
  unfolding attempts require_safe_order_id require_real_directory
  attempts_value s a b = rw (a, b) refl

  after_write :
      (m : ℕ) (r : Result QueueError (Unit {0}) × Files) {n : ℕ}
      → Post (λ u. Reads (retry_state i) (dump (m + 1)) u × (real_kind (u.kind deferred) ≡ true)) r
      → (caught r (λ _. pure (m + 1)) raise).0 ≡ ok n
      → (Reads (retry_state i) (dump n) (caught r (λ _. pure (m + 1)) raise).1)
        × (real_kind ((caught r (λ _. pure (m + 1)) raise).1.kind deferred) ≡ true)
  after_write m (ok tt, u) f h =
      let e : m + 1 ≡ _ = ok_inj h in
      (subst (λ k. Reads (retry_state i) (dump k) u) e (f tt refl).0, (f tt refl).1)
  after_write m (err x, u) f h = absurd (not_ok h)

  attempts_returns :
      (s : Files)
      → order_id_codes (codes i) ≡ true
      → real_kind (s.kind deferred) ≡ true
      → attempts count i s ≡ (ok (counted (read_text (retry_state i) s)), s)
  unfolding attempts require_safe_order_id require_real_directory
  attempts_returns s a b = rw (a, b) refl

  attempts_refuses :
      (s : Files)
      → (order_id_codes (codes i) && real_kind (s.kind deferred)) ≡ false
      → attempts count i s ≡ (
        err (
            value_error
              (if order_id_codes (codes i) then "must be a real directory" else "unsafe order id")),
        s,
      )
  unfolding attempts require_safe_order_id require_real_directory
  attempts_refuses s z = elim (Bool-cases (order_id_codes (codes i))) [
    | inr a ↦ rw a refl
    | inl a ↦ rw (a, (rw a at z)) refl
  ]

  abbrev step : ℕ → Io ℕ
  step m = write_json_atomic os (retry_state i) (dump (m + 1)) true >> pure (m + 1)

  written :
      (m : ℕ) (s : Files)
      → Post
          (Written os (retry_state i) (dump (m + 1)) s)
          (write_json_atomic os (retry_state i) (dump (m + 1)) true s)
  unfolding write_json_atomic make_directory
  written m s = written_at os (retry_state i) (dump (m + 1)) true (s.kind deferred) s refl

  read_again :
      (u : Files) (n : ℕ)
      → ((m : ℕ) → count (dump m) ≡ some m)
      → order_id_codes (codes i) ≡ true
      → Reads (retry_state i) (dump n) u
      → real_kind (u.kind deferred) ≡ true
      → (attempts count i u).0 ≡ ok n
  read_again u n law a t k =
      attempts_value u a k ∙ ap (λ x. ok (counted x)) t ∙ rw (counted, law n) refl

  -- A count that is recorded is the one that the next look reads, when the reader of a count reads
  -- what its writer writes.
  pub attempts-record_attempt :
      (s : Files) {n : ℕ}
      → ((m : ℕ) → count (dump m) ≡ some m)
      → (record_attempt os count dump i s).0 ≡ ok n
      → (attempts count i (record_attempt os count dump i s).1).0 ≡ ok n
  unfolding record_attempt
  attempts-record_attempt s {n = n} law h =
      elim (Bool-cases (order_id_codes (codes i) && real_kind (s.kind deferred))) [
        | inr z ↦ absurd (
            not_ok (ap (λ r. r.0) (sym (ap (λ r. caught r step raise) (attempts_refuses s z))) ∙ h))
        | inl z ↦
            let (a, b) = and-true (order_id_codes (codes i)) (real_kind (s.kind deferred)) z in
            let m = counted (read_text (retry_state i) s) in
            let same : record_attempt os count dump i s ≡ step m s =
              ap (λ r. caught r step raise) (attempts_returns s a b) in
            let (text, kind) =
              after_write m (write_json_atomic os (retry_state i) (dump (m + 1)) true s)
                (written m s) (ap (λ r. r.0) (sym same) ∙ h) in
            ap (λ r. (attempts count i r.1).0) same ∙ read_again (step m s).1 n law a text kind
      ]
