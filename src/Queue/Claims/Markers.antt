-- ===== src/Queue/Claims/Markers.antt =====
-- What moves, renames and removals of other paths leave of a marker.
use chitra.Prelude.{
  ℕ, ◌<◌, String, ◌≡◌, ◌≢◌, refl, sym, ap, subst, ◌∙◌, Bool, true, false, not, ◌||◌, Option, some,
  Result, ok, err, Bool-cases, Option-cases, inl, inr,
}
use chitra.Queue.{
  orders, in_flight, QueuePath, Entry, file, QueueError, Files, Os, lookup, same_path, rename,
  rename_at, unlink, unlink_at, suppress, require_real_file, require_real_directory, real_kind,
  is_symlink, is_directory, same_entry, add, Io, pure, raise, caught, check, ◌>>◌, remove,
}
use chitra.Queue.Entries.{lookup-add_other, lookup-remove_other}
use chitra.Queue.Once.{HasText}
use chitra.Queue.Claims.{claim}

file_inj : {i j : ℕ} → ◌≡◌ {A = Option Entry} (some (file i)) (some (file j)) → i ≡ j
file_inj h = cc

after_check :
    {A : Type 0} (P : Files → Type 0) (b : Bool) (e : QueueError) (k : Io A) (s : Files)
    → P s
    → P (k s).1
    → P ((check b e >> k) s).1
after_check P true e k s a h = h
after_check P false e k s a h = a

after_return :
    {A B : Type 0} (P : Files → Type 0) (x : B) (r : Result QueueError A × Files)
    → P r.1
    → P (caught r (λ _. pure x) raise).1
after_return P x (ok a, t) h = h
after_return P x (err e, t) h = h

pub still :
    (m : QueuePath) (t : String) (r s : Files)
    → r.text ≡ s.text
    → r.next ≡ s.next
    → lookup m r ≡ lookup m s
    → HasText m t s
    → HasText m t r
still m t r s a b c h = record {
  inode = h.inode;
  found = c ∙ h.found;
  text = ap (λ f. f h.inode) a ∙ h.text;
  below = subst (λ n. h.inode < n) (sym b) h.below;
}

-- the claim of a path that is no marker
pub claim_keeps :
    (os : Os) (n : String) (s : Files) (P : Files → Type 0)
    → P s
    → P (rename os (record { dir = orders; name = n }) (record { dir = in_flight; name = n }) s).1
    → P (claim os (record { dir = orders; name = n }) s).1
unfolding claim require_real_directory require_real_file
claim_keeps os n s P a b =
    let p : QueuePath = record { dir = orders; name = n } in
    let q : QueuePath = record { dir = in_flight; name = n } in
    after_check P (real_kind (s.kind in_flight)) _ _ s a (
      after_check P (real_kind (s.kind orders)) _ _ s a (
        after_check P (same_path p p) _ _ s a (
          after_check P (not (is_symlink p s)) _ _ s a
            (after_check P (not (is_symlink q s)) _ _ s a (after_return P q (rename os p q s) b)))))

pub rename_keeps :
    (os : Os) (p q m : QueuePath) (t : String) (s : Files)
    → m ≢ p
    → m ≢ q
    → HasText m t s
    → HasText m t (rename os p q s).1
unfolding rename rename_at
rename_keeps os p q m t s a b h = elim (Bool-cases (os.rename_fails p q)) [
  | inl c ↦ rw c h
  | inr c ↦ elim (Option-cases (lookup p s)) [
    | inl d ↦ rw (c, d, rename_at) h
    | inr (x, d) ↦ elim (Bool-cases (same_path p q || same_entry x (lookup q s))) [
      | inl e ↦ rw (c, d, rename_at, e) h
      | inr e ↦ elim (Bool-cases (is_directory (s.kind q.dir))) [
        | inr f ↦ rw (c, d, rename_at, e, f) h
        | inl f ↦
            rw (c, d, rename_at, e, f)
              (still m t (add q x (remove p (remove q s))) s refl refl
                (lookup-add_other m q x (remove p (remove q s)) b
                  ∙ lookup-remove_other m p (remove q s) a
                  ∙ lookup-remove_other m q s b)
                h)
      ]
    ]
  ]
]

pub unlink_keeps :
    (os : Os) (p m : QueuePath) (t : String) (s : Files)
    → m ≢ p
    → HasText m t s
    → HasText m t (suppress (unlink os p) s).1
unfolding unlink unlink_at
unlink_keeps os p m t s a h = elim (Bool-cases (os.unlink_fails p)) [
  | inl c ↦ rw c h
  | inr c ↦ elim (Option-cases (lookup p s)) [
    | inl d ↦ rw (c, d, unlink_at) h
    | inr (x, d) ↦
        rw (c, d, unlink_at) (still m t (remove p s) s refl refl (lookup-remove_other m p s a) h)
  ]
]

-- one path has one text
pub one_text : (m : QueuePath) (t u : String) (s : Files) → HasText m t s → HasText m u s → t ≡ u
one_text m t u s h k = sym h.text ∙ ap s.text (file_inj (sym h.found ∙ k.found)) ∙ k.text
