-- ===== src/Supervision/States.antt =====
-- What a log that loads says of its rows.
use chitra.Prelude.{
  ℕ, ◌+◌, String, ◌==◌, eq_iff, ◌≡◌, refl, ◌∙◌, true, Option, List, [], ◌∷◌, ◌++◌, length, eqb, ok,
  arith, Bool-cases, inl, inr, subst,
}
use native.Mathlib.Nat.{zero-add}
use chitra.Digest.{Digest}
use chitra.Supervision.{
  SupervisionRecord, SupervisionState, completion_verified, RowFormat, allowed_transition, link,
  chain, load,
}
use chitra.Supervision.Rows.{IsChecked, two_checks, load-ok}

-- how a row follows from an earlier one, `n` rows before it
pub record IsLater (r : SupervisionRecord) (n : ℕ) (s : SupervisionRecord) : Type 0 where
  pub revision : s.revision ≡ r.revision + n
  pub session_ref : s.session_ref ≡ r.session_ref
  pub completion : r.state ≡ completion_verified → s.state ≡ completion_verified

completed_stays :
    (a b : SupervisionState)
    → allowed_transition a b ≡ true
    → a ≡ completion_verified
    → b ≡ completion_verified
unfolding allowed_transition
completed_stays a completion_verified h k = refl
completed_stays a b h k = ground (arith, h, k)

link-IsLater : (r s : SupervisionRecord) → IsChecked (link r s) → IsLater r 1 s
unfolding link
link-IsLater r s h = elim (Bool-cases (eqb s.revision (r.revision + 1))) [
  | inr n ↦ absurd (rw n at h)
  | inl n ↦ elim (Bool-cases (s.session_ref == r.session_ref)) [
    | inr m ↦ absurd (rw (n, m) at h)
    | inl m ↦ elim (Bool-cases (allowed_transition r.state s.state)) [
      | inr a ↦ absurd (rw (n, m, a) at h)
      | inl a ↦ record {
        revision = ground (arith, n);
        session_ref = (eq_iff s.session_ref r.session_ref).0 m;
        completion = completed_stays r.state s.state a;
      }
    ]
  ]
]

IsLater-trans :
    (r s t : SupervisionRecord) (m n : ℕ) → IsLater r m s → IsLater s n t → IsLater r (m + n) t
IsLater-trans r s t m n h k = record {
  revision = omega (arith, h.revision, k.revision);
  session_ref = k.session_ref ∙ h.session_ref;
  completion = λ e. k.completion (h.completion e);
}

chain_tail :
    (x : SupervisionRecord) (rs : List SupervisionRecord)
    → IsChecked (chain (x ∷ rs))
    → IsChecked (chain rs)
unfolding chain
chain_tail x [] h = tt
chain_tail x (r ∷ rs) h = ((two_checks (link x r) (chain (r ∷ rs))).1 h).1

chain_suffix :
    (before rs : List SupervisionRecord) → IsChecked (chain (before ++ rs)) → IsChecked (chain rs)
chain_suffix [] rs h = h
chain_suffix (x ∷ before) rs h = chain_suffix before rs (chain_tail x (before ++ rs) h)

chain-IsLater :
    (r : SupervisionRecord) (between : List SupervisionRecord) (s : SupervisionRecord)
    (rest : List SupervisionRecord)
    → IsChecked (chain (r ∷ (between ++ s ∷ rest)))
    → IsLater r (length between + 1) s
unfolding chain
chain-IsLater r [] s rest h =
    rw zero-add (link-IsLater r s ((two_checks (link r s) (chain (s ∷ rest))).1 h).0)
chain-IsLater r (t ∷ between) s rest h =
    let (l, c) = (two_checks (link r t) (chain (t ∷ (between ++ s ∷ rest)))).1 h in
    subst (λ n. IsLater r n s) (omega arith)
      (IsLater-trans r t s 1 (length between + 1) (link-IsLater r t l)
        (chain-IsLater t between s rest c))

module _ (D : Digest) (R : RowFormat) (lane : String) where
  -- In a log that loads, of two rows the later one's revision is larger by the rows from one to the
  -- other, the session is the same, and a row after `completion_verified` is `completion_verified`.
  pub load-IsLater :
      (file : Option String) (before : List SupervisionRecord) (r : SupervisionRecord)
      (between : List SupervisionRecord) (s : SupervisionRecord) (rest : List SupervisionRecord)
      → load D R lane file ≡ ok (before ++ r ∷ (between ++ s ∷ rest))
      → IsLater r (length between + 1) s
  load-IsLater file before r between s rest h = chain-IsLater r between s rest (
      chain_suffix before (r ∷ (between ++ s ∷ rest))
        (load-ok D R lane file (before ++ r ∷ (between ++ s ∷ rest)) h).1)
