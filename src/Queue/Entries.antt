-- ===== src/Queue/Entries.antt =====
-- Look-ups after an entry is added or removed.
use chitra.Prelude.{
  ℕ, ◌==◌, eq_iff, eq_refl, ◌≡◌, ◌≢◌, refl, sym, ap, ◌∙◌, true, false, none, some, List, [], ◌∷◌,
  if◌then◌else◌, eqb, Bool-cases, inl, inr, arith, and-true,
}
use chitra.Queue.{
  QueueSubdir, orders, in_flight, deferred, results, processed, invalid, QueuePath, Entry, Files,
  same_path, find_entry, without, lookup, add, remove, subdir_rank,
}

subdir_at : ℕ → QueueSubdir
subdir_at n =
    if eqb n 0
    then orders
    else if eqb n 1
    then in_flight
    else if eqb n 2
    then deferred
    else if eqb n 3
    then results
    else if eqb n 4
    then processed
    else invalid

subdir_at-rank : (d : QueueSubdir) → subdir_at (subdir_rank d) ≡ d
unfolding subdir_at subdir_rank
subdir_at-rank orders = refl
subdir_at-rank in_flight = refl
subdir_at-rank deferred = refl
subdir_at-rank results = refl
subdir_at-rank processed = refl
subdir_at-rank invalid = refl

pub eqb_sound : (m n : ℕ) → eqb m n ≡ true → m ≡ n
eqb_sound m n h = ground arith

pub same_path_sound : (p q : QueuePath) → same_path p q ≡ true → p ≡ q
unfolding same_path
same_path_sound p q h =
    let (d, n) = and-true (eqb (subdir_rank p.dir) (subdir_rank q.dir)) (p.name == q.name) h in
    let dirs : p.dir ≡ q.dir =
      sym (subdir_at-rank p.dir)
      ∙ ap subdir_at (eqb_sound (subdir_rank p.dir) (subdir_rank q.dir) d)
      ∙ subdir_at-rank q.dir in
    let names = (eq_iff p.name q.name).0 n in λ i. record { dir = dirs i; name = names i }

pub eqb_same : (n : ℕ) → eqb n n ≡ true
eqb_same n = ground arith

pub same_path_refl : (p : QueuePath) → same_path p p ≡ true
unfolding same_path
same_path_refl p = rw (eqb_same (subdir_rank p.dir), eq_refl p.name) refl

pub same_path_other : (p q : QueuePath) → p ≢ q → same_path p q ≡ false
same_path_other p q h = elim (Bool-cases (same_path p q)) [
  | inl e ↦ absurd (h (same_path_sound p q e))
  | inr e ↦ e
]

pub lookup-add : (p : QueuePath) (e : Entry) (s : Files) → lookup p (add p e s) ≡ some e
unfolding find_entry
lookup-add p e s = rw (same_path_refl p) refl

pub lookup-add_other :
    (p q : QueuePath) (e : Entry) (s : Files) → p ≢ q → lookup p (add q e s) ≡ lookup p s
unfolding find_entry
lookup-add_other p q e s h = rw (same_path_other p q h) refl

find_entry-without :
    (p : QueuePath) (xs : List (QueuePath × Entry)) → find_entry p (without p xs) ≡ none
unfolding find_entry without
find_entry-without p [] = refl
find_entry-without p (x ∷ xs) = elim (Bool-cases (same_path p x.0)) [
  | inl e ↦ rw e (find_entry-without p xs)
  | inr e ↦ rw (e, find_entry, e) (find_entry-without p xs)
]

find_entry-without_other :
    (p q : QueuePath) (xs : List (QueuePath × Entry))
    → p ≢ q
    → find_entry p (without q xs) ≡ find_entry p xs
unfolding find_entry without
find_entry-without_other p q [] h = refl
find_entry-without_other p q (x ∷ xs) h = elim (Bool-cases (same_path q x.0)) [
  | inl e ↦
      rw (e, same_path_other p x.0 (λ k. h (k ∙ sym (same_path_sound q x.0 e))))
        (find_entry-without_other p q xs h)
  | inr e ↦ elim (Bool-cases (same_path p x.0)) [
    | inl k ↦ rw (e, find_entry, k) refl
    | inr k ↦ rw (e, find_entry, k) (find_entry-without_other p q xs h)
  ]
]

pub lookup-remove : (p : QueuePath) (s : Files) → lookup p (remove p s) ≡ none
lookup-remove p s = find_entry-without p s.entries

pub lookup-remove_other : (p q : QueuePath) (s : Files) → p ≢ q → lookup p (remove q s) ≡ lookup p s
lookup-remove_other p q s h = find_entry-without_other p q s.entries h
