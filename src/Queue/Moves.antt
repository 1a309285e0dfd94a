-- ===== src/Queue/Moves.antt =====
-- `_move_without_replace`, and what is left after it, whichever call of the operating system fails.
use chitra.Prelude.{
  String, ◌≡◌, ◌≢◌, refl, sym, ap, ◌∙◌, Bool, true, false, not, ◌||◌, Option, none, some,
  if◌then◌else◌, Result, ok, err, Bool-cases, Option-cases, inl, inr, ◌⊎◌, arith,
}
use chitra.Queue.{
  QueuePath, Entry, QueueError, value_error, file_exists, file_not_found, os_error, Files, Os, Io,
  pure, raise, gets, catch, ◌>>=◌, ◌>>◌, suppress, check, is_symlink, link, unlink, lookup, add,
  remove, is_directory, same_path, find_entry, link_at, unlink_at,
}
use chitra.Queue.Entries.{
  lookup-add, lookup-add_other, lookup-remove, lookup-remove_other, same_path_sound,
}

abbrev pub is_file_exists : QueueError → Bool
is_file_exists file_exists = true
is_file_exists _ = false

module _ (os : Os) where
  -- source and target
  unfoldable pub move_without_replace : QueuePath → QueuePath → Io Bool
  move_without_replace p q = do
    source_linked ← gets (is_symlink p)
    target_linked ← gets (is_symlink q)
    check (not (source_linked || target_linked))
        (value_error "queue move paths must not be symlinks")
    catch (link os p q)
        (λ _. catch (unlink os p) (λ _. pure true) (λ e. suppress (unlink os q) >> raise e))
        (λ e. if is_file_exists e then pure false else raise e)

-- The outcomes of a move of `p` to `q` from the files `s`.
pub data IsMove (p q : QueuePath) (s : Files) : Result QueueError Bool × Files → Type 0 where
  refused :
      {x y : Entry}
      → lookup p s ≡ some x
      → lookup q s ≡ some y
      → is_symlink p s ≡ false
      → IsMove p q s (ok false, s)
  failed :
      {e : QueueError}
      → (e ≡ file_not_found → (lookup p s ≡ none) ⊎ (lookup q s ≡ none))
      → IsMove p q s (err e, s)
  moved :
      {x : Entry}
      → lookup p s ≡ some x
      → lookup q s ≡ none
      → IsMove p q s (ok true, remove p (add q x s))
  undone :
      {x : Entry}
      → lookup p s ≡ some x
      → lookup q s ≡ none
      → IsMove p q s (err os_error, remove q (add q x s))
  linked :
      {x : Entry} → lookup p s ≡ some x → lookup q s ≡ none → IsMove p q s (err os_error, add q x s)

or_false : (a b : Bool) → (a || b) ≡ false → a ≡ false
or_false a b h = ground arith

not_value : {m : String} → ◌≡◌ {A = QueueError} (value_error m) file_not_found → ⊥
not_value h = cc

not_other : ◌≡◌ {A = QueueError} os_error file_not_found → ⊥
not_other h = cc

module _ (os : Os) (p q : QueuePath) (s : Files) where
  still_there : {x : Entry} → lookup p s ≡ some x → lookup p (add q x s) ≡ some x
  still_there {x} h = elim (Bool-cases (same_path p q)) [
    | inl e ↦ ap (λ r. lookup r (add q x s)) (same_path_sound p q e) ∙ lookup-add q x s
    | inr e ↦ unfold find_entry in rw e h
  ]

  -- after the link: the source is removed, or else the link is
  unlinked :
      {x : Entry}
      → lookup p s ≡ some x
      → lookup q s ≡ none
      → IsMove p q s (
          catch (unlink os p) (λ _. pure true) (λ e. suppress (unlink os q) >> raise e) (add q x s))
  unfolding unlink unlink_at
  unlinked {x} h k = elim (Bool-cases (os.unlink_fails p)) [
    | inr e ↦ rw (e, still_there h, unlink_at) (moved h k)
    | inl e ↦ elim (Bool-cases (os.unlink_fails q)) [
      | inl f ↦ rw (e, f) (linked h k)
      | inr f ↦ rw (e, f, lookup-add q x s, unlink_at) (undone h k)
    ]
  ]

  -- Every run of a move has one of the outcomes.
  pub move_without_replace-IsMove : IsMove p q s (move_without_replace os p q s)
  unfolding move_without_replace link link_at
  move_without_replace-IsMove = elim (Bool-cases (is_symlink p s || is_symlink q s)) [
    | inl e ↦ rw e (failed (λ k. absurd (not_value k)))
    | inr e ↦ elim (Bool-cases (os.link_fails p q)) [
      | inl f ↦ rw (e, f) (failed (λ k. absurd (not_other k)))
      | inr f ↦ elim (Option-cases (lookup p s)) [
        | inl h ↦ rw (e, f, h, link_at) (failed (λ k. inl h))
        | inr (x, h) ↦ elim (Option-cases (lookup q s)) [
          | inr (y, k) ↦
              rw (e, f, h, k, link_at) (refused h k (or_false (is_symlink p s) (is_symlink q s) e))
          | inl k ↦ elim (Bool-cases (is_directory (s.kind q.dir))) [
            | inl d ↦ rw (e, f, h, k, link_at, d) (unlinked h k)
            | inr d ↦ rw (e, f, h, k, link_at, d) (failed (λ n. inr k))
          ]
        ]
      ]
    ]
  ]

none-some : {x : Entry} → ◌≡◌ {A = Option Entry} none (some x) → ⊥
none-some h = cc

not_told : ◌≡◌ {A = Result QueueError Bool} (ok false) (ok true) → ⊥
not_told h = cc

not_raised : {e : QueueError} → ◌≡◌ {A = Result QueueError Bool} (err e) (ok true) → ⊥
not_raised h = cc

-- What a move does to every path.
pub record IsSafeMove (p q : QueuePath) (s : Files) (r : Result QueueError Bool × Files)
    : Type 0 where
  pub text : r.1.text ≡ s.text
  pub next : r.1.next ≡ s.next
  pub others : (x : QueuePath) → x ≢ p → x ≢ q → lookup x r.1 ≡ lookup x s
  pub not_replaced : {e : Entry} → lookup q s ≡ some e → lookup q r.1 ≡ some e
  pub not_lost :
      {e : Entry} → lookup p s ≡ some e → (lookup p r.1 ≡ some e) ⊎ (lookup q r.1 ≡ some e)
  pub told : r.0 ≡ ok true → (lookup p r.1 ≡ none) × (lookup q r.1 ≡ lookup p s)
  pub untold : r.0 ≢ ok true → lookup p r.1 ≡ lookup p s

apart : (p q : QueuePath) (s : Files) {x : Entry} → lookup p s ≡ some x → lookup q s ≡ none → p ≢ q
apart p q s h k e = none-some (sym k ∙ ap (λ r. lookup r s) (sym e) ∙ h)

module _ (p q : QueuePath) (s : Files) where
  safe : {r : Result QueueError Bool × Files} → IsMove p q s r → IsSafeMove p q s r
  safe (refused h k l) = record {
    text = refl;
    next = refl;
    others = λ x h k. refl;
    not_replaced = λ h. h;
    not_lost = λ h. inl h;
    told = λ h. absurd (not_told h);
    untold = λ h. refl;
  }
  safe (failed w) = record {
    text = refl;
    next = refl;
    others = λ x h k. refl;
    not_replaced = λ h. h;
    not_lost = λ h. inl h;
    told = λ h. absurd (not_raised h);
    untold = λ h. refl;
  }
  safe (moved {x} h k) =
      let other = apart p q s h k in
      let at_target : lookup q (remove p (add q x s)) ≡ lookup p s =
        lookup-remove_other q p (add q x s) (λ e. other (sym e)) ∙ lookup-add q x s ∙ sym h in
      record {
        text = refl;
        next = refl;
        others = λ y a b. lookup-remove_other y p (add q x s) a ∙ lookup-add_other y q x s b;
        not_replaced = λ e. absurd (none-some (sym k ∙ e));
        not_lost = λ e. inr (at_target ∙ e);
        told = λ _. (lookup-remove p (add q x s), at_target);
        untold = λ n. absurd (n refl);
      }
  safe (undone {x} h k) =
      let other = apart p q s h k in
      let at_source : lookup p (remove q (add q x s)) ≡ lookup p s =
        lookup-remove_other p q (add q x s) other ∙ lookup-add_other p q x s other in
      record {
        text = refl;
        next = refl;
        others = λ y a b. lookup-remove_other y q (add q x s) b ∙ lookup-add_other y q x s b;
        not_replaced = λ e. absurd (none-some (sym k ∙ e));
        not_lost = λ e. inl (at_source ∙ e);
        told = λ e. absurd (not_raised e);
        untold = λ _. at_source;
      }
  safe (linked {x} h k) =
      let at_source = lookup-add_other p q x s (apart p q s h k) in
      record {
        text = refl;
        next = refl;
        others = λ y a b. lookup-add_other y q x s b;
        not_replaced = λ e. absurd (none-some (sym k ∙ e));
        not_lost = λ e. inl (at_source ∙ e);
        told = λ e. absurd (not_raised e);
        untold = λ _. at_source;
      }

-- Whichever calls of the operating system fail, a move changes no path but its two, replaces no
-- target and loses no source; it says that it moved when the source is gone and the target has its
-- file, and else the source stays as it was.
pub move_without_replace-IsSafeMove :
    (os : Os) (p q : QueuePath) (s : Files) → IsSafeMove p q s (move_without_replace os p q s)
move_without_replace-IsSafeMove os p q s = safe p q s (move_without_replace-IsMove os p q s)
