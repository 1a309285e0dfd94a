-- ===== src/Queue/Once.antt =====
-- A routine that publishes a file and tells whether it did: `reserve_claim` and `create_once`.
use chitra.Prelude.{
  ℕ, ◌<◌, ◌≤◌, String, ◌≡◌, ◌≢◌, refl, sym, ap, ◌∙◌, Bool, true, false, Option, none, some,
  if◌then◌else◌, Result, ok, err, ok_inj, Bool-cases, inl, inr, arith,
}
use chitra.Queue.{
  QueueSubdir, Kind, absent, directory, symlinked, other, QueuePath, Entry, file, QueueError, Files,
  Os, Io, pure, raise, catch, caught, ◌>>◌, check, lookup, same_path, file_exists, make_at,
  make_directory,
}
use chitra.Queue.Entries.{same_path_sound, same_path_refl}
use chitra.Queue.Moves.{is_file_exists}
use chitra.Queue.Publish.{publish, IsPublished, publish-IsPublished}

-- a path holds a text
pub record HasText (q : QueuePath) (t : String) (s : Files) : Type 0 where
  pub inode : ℕ
  pub found : lookup q s ≡ some (file inode)
  pub text : s.text inode ≡ t
  pub below : inode < s.next

-- what was there stays
pub record IsKept (p : QueuePath) (s t : Files) : Type 0 where
  pub next : s.next ≤ t.next
  pub text : (j : ℕ) → j < s.next → t.text j ≡ s.text j
  pub kept : (x : QueuePath) {e : Entry} → x ≢ p → lookup x s ≡ some e → lookup x t ≡ some e

pub IsKept-refl : (p : QueuePath) (s : Files) → IsKept p s s
IsKept-refl p s = record { next = omega arith; text = λ j h. refl; kept = λ x a b. b }

pub HasText-IsKept :
    (q p : QueuePath) (t : String) (r s : Files)
    → q ≢ p
    → HasText q t r
    → IsKept p r s
    → HasText q t s
HasText-IsKept q p t r s n h k = record {
  inode = h.inode;
  found = k.kept q n h.found;
  text = k.text h.inode h.below ∙ h.text;
  below = omega (arith, h.below, k.next);
}

none-some : {e : Entry} → ◌≡◌ {A = Option Entry} none (some e) → ⊥
none-some h = cc

not_raised :
    {A : Type 0} {e : QueueError} {a : A} → ◌≡◌ {A = Result QueueError A} (err e) (ok a) → ⊥
not_raised h = cc

differ : false ≡ true → ⊥
differ h = cc

module _ {A : Type 0} (says : A → Bool) (p q : QueuePath) (t : String) where
  pub record IsOnce (s : Files) (r : Result QueueError A × Files) : Type 0 where
    pub keeps : IsKept p s r.1
    -- when it says that it made the file, the path was free and has the text
    pub made : (a : A) → r.0 ≡ ok a → says a ≡ true → (lookup q s ≡ none) × HasText q t r.1

  pub IsOnce-raised : (e : QueueError) (s : Files) → IsOnce s (err e, s)
  IsOnce-raised e s = record { keeps = IsKept-refl p s; made = λ a h. absurd (not_raised h) }

  pub IsOnce-check :
      (b : Bool) (e : QueueError) (k : Io A) (s : Files)
      → IsOnce s (k s)
      → IsOnce s ((check b e >> k) s)
  IsOnce-check true e k s h = h
  IsOnce-check false e k s h = IsOnce-raised e s

  same_names :
      (f : QueueSubdir → Kind) (s : Files) {r : Result QueueError A × Files}
      → IsOnce (record s { kind = f }) r
      → IsOnce s r
  same_names f s h = record {
    keeps = record { next = h.keeps.next; text = h.keeps.text; kept = h.keeps.kept };
    made = h.made;
  }

  IsOnce-made :
      (d : QueueSubdir) (c : Kind) (k : Io A) (s : Files)
      → ((f : QueueSubdir → Kind) → IsOnce (record s { kind = f }) (k (record s { kind = f })))
      → IsOnce s (caught (make_at d c s) (λ _. k) raise)
  unfolding make_at
  IsOnce-made d directory k s h = same_names s.kind s (h s.kind)
  IsOnce-made d absent k s h = same_names _ s (h _)
  IsOnce-made d symlinked k s h = IsOnce-raised file_exists s
  IsOnce-made d other k s h = IsOnce-raised file_exists s

  pub IsOnce-directory :
      (d : QueueSubdir) (k : Io A) (s : Files)
      → ((f : QueueSubdir → Kind) → IsOnce (record s { kind = f }) (k (record s { kind = f })))
      → IsOnce s ((make_directory d >> k) s)
  unfolding make_directory
  IsOnce-directory d k s h = IsOnce-made d (s.kind d) k s h

  final_kept :
      (s : Files) (r : Result QueueError (Unit {0}) × Files)
      → IsPublished p q t s r
      → {e : Entry} → lookup q s ≡ some e
      → lookup q r.1 ≡ some e
  final_kept s (ok tt, r) u h = absurd (none-some (sym (u.told refl).0 ∙ h))
  final_kept s (err e, r) u h = u.untold not_raised ∙ h

  IsKept-path :
      (s : Files) (r : Result QueueError (Unit {0}) × Files)
      → IsPublished p q t s r
      → IsKept p s r.1
  IsKept-path s r u = record {
    next = u.next;
    text = u.text;
    kept = λ x {e} a b. elim (Bool-cases (same_path x q)) [
      | inr c ↦
          u.others x a (λ h. differ (sym c ∙ ap (λ y. same_path y q) h ∙ same_path_refl q)) ∙ b
      | inl c ↦
          let h = same_path_sound x q c in
          ap (λ y. lookup y r.1) h ∙ final_kept s r u (ap (λ y. lookup y s) (sym h) ∙ b)
    ];
  }

  IsOnce-told :
      (won lost : A)
      → says lost ≡ false
      → (s : Files) (r : Result QueueError (Unit {0}) × Files) → IsPublished p q t s r
      → IsOnce s (caught r (λ _. pure won) (λ e. if is_file_exists e then pure lost else raise e))
  IsOnce-told won lost h s (ok tt, r) u = record {
    keeps = IsKept-path s (ok tt, r) u;
    made = λ a e k.
        let (free, found, text, below) = u.told refl in
        (free, record { inode = s.next; found = found; text = text; below = below });
  }
  IsOnce-told won lost h s (err e, r) u = elim (Bool-cases (is_file_exists e)) [
    | inl c ↦ rw c (record {
      keeps = IsKept-path s (err e, r) u;
      made = λ a f k. absurd (differ (sym h ∙ ap says (ok_inj f) ∙ k));
    })
    | inr c ↦
        rw c (record { keeps = IsKept-path s (err e, r) u; made = λ a f. absurd (not_raised f) })
  ]

  -- Whether a routine says that it published, and what then holds.
  pub once :
      (os : Os) (won lost : A)
      → says lost ≡ false
      → p ≢ q
      → (s : Files)
      → IsOnce s (
          catch
            (publish os p q t)
            (λ _. pure won)
            (λ e. if is_file_exists e then pure lost else raise e)
            s)
  once os won lost h n s =
      IsOnce-told won lost h s (publish os p q t s) (publish-IsPublished os p q t s n)
