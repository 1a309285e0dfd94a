-- ===== src/Queue/Results/Arrive.antt =====
-- The move of a finalization, with what an earlier pass may have left.
use chitra.Prelude.{
  ◌≡◌, ◌≢◌, refl, sym, ap, ◌∙◌, Bool, true, false, not, ◌&&◌, Option, none, some, Result, ok, err,
  Bool-cases, Option-cases, inl, inr, ◌⊎◌, if◌then◌else◌, is_some, eqb,
}
use chitra.Queue.{
  QueuePath, Entry, file, symlink, QueueError, value_error, add, file_exists, file_not_found, Files,
  Os, Io, pure, raise, caught, ◌>>◌, ◌>>=◌, gets, check, target, exists, lookup, remove, os_error,
  is_symlink, unlink, unlink_at,
}
use chitra.Queue.Entries.{eqb_sound, lookup-add, lookup-remove, lookup-remove_other}
use chitra.Queue.Moves.{
  move_without_replace, IsMove, move_without_replace-IsMove, refused, failed, moved, undone, linked,
}
use chitra.Queue.Results.{
  is_not_found, is_value_error, TerminalFinalization, move_order, after_refusal, same_file,
}

-- when it returns, the files satisfy `Q`
abbrev pub Post : {A : Type 0} → (Files → Type 0) → Result QueueError A × Files → Type 0
Post {A = A} Q r = (a : A) → r.0 ≡ ok a → Q r.1

not_ok : {A : Type 0} {e : QueueError} {a : A} → ◌≡◌ {A = Result QueueError A} (err e) (ok a) → ⊥
not_ok h = cc

pub raised :
    {A : Type 0} (Q : Files → Type 0) (e : QueueError) (s : Files) → Post {A = A} Q (err e, s)
raised Q e s a h = absurd (not_ok h)

pub post_bind :
    {A B : Type 0} (I Q : Files → Type 0) (r : Result QueueError A × Files) (k : A → Io B)
    → Post I r
    → ((a : A) (t : Files) → I t → Post Q (k a t))
    → Post Q (caught r k raise)
post_bind I Q (ok a, t) k h f = f a t (h a refl)
post_bind I Q (err e, t) k h f = raised Q e t

pub post_check :
    {A : Type 0} (Q : Files → Type 0) (b : Bool) (e : QueueError) (k : Io A) (s : Files)
    → Post Q (k s)
    → Post Q ((check b e >> k) s)
post_check Q true e k s h = h
post_check Q false e k s h = raised Q e s

-- the claimed order is gone, and its destination has the file that it was
pub record IsArrived (p q : QueuePath) (s t : Files) : Type 0 where
  pub gone : lookup p t ≡ none
  pub arrived : is_some (lookup q t) ≡ true
  pub same : (e : Entry) → lookup p s ≡ some e → target (lookup q t) ≡ target (some e)

true-false : true ≡ false → ⊥
true-false h = cc

none-some : {e : Entry} → ◌≡◌ {A = Option Entry} none (some e) → ⊥
none-some h = cc

-- the except clauses
abbrev handler : QueuePath → Bool → QueueError → Io (Unit {0})
handler q quiet e =
    if is_not_found e
    then ((gets (exists q)) >>= λ there. check there e)
    else if not (is_value_error e) && quiet
    then pure tt
    else raise e

handled :
    (Q : Files → Type 0) (q : QueuePath) (e : QueueError) (s : Files)
    → is_not_found e ≡ false
    → Post Q (handler q false e s)
handled Q q e s h = elim (Bool-cases (is_value_error e)) [
  | inl k ↦ rw (h, k) (raised Q e s)
  | inr k ↦ rw (h, k) (raised Q e s)
]

module _ (os : Os) (p q : QueuePath) (s : Files) (p_not_q : p ≢ q) where
  -- a half-complete move is finished
  refused-IsArrived :
      (x y : Entry)
      → lookup p s ≡ some x
      → lookup q s ≡ some y
      → is_symlink p s ≡ false
      → Post (IsArrived p q s) (caught (after_refusal os p q false s) pure (handler q false))
  unfolding after_refusal unlink unlink_at same_file
  refused-IsArrived (symlink t) y h k l = absurd (true-false (rw h at l))
  refused-IsArrived (file i) y h k l = elim (Option-cases (target (some y))) [
    | inl m ↦ rw (h, k, m) (raised (IsArrived p q s) file_exists s)
    | inr (j, m) ↦ elim (Bool-cases (eqb i j)) [
      | inr n ↦ rw (h, k, m, same_file, n) (raised (IsArrived p q s) file_exists s)
      | inl n ↦ elim (Bool-cases (os.unlink_fails p)) [
        | inl f ↦ rw (h, k, m, same_file, n, f) (raised (IsArrived p q s) os_error s)
        | inr f ↦
            rw (h, k, m, same_file, n, f, h, unlink_at)
              (λ a r. record {
                gone = lookup-remove p s;
                arrived = ap is_some (lookup-remove_other q p s (λ z. p_not_q (sym z)) ∙ k);
                same = λ e z.
                    ap target (lookup-remove_other q p s (λ z. p_not_q (sym z)) ∙ k)
                    ∙ m
                    ∙ ap some (sym (eqb_sound i j n))
                    ∙ ap target (sym h ∙ z);
              })
      ]
    ]
  ]

  -- the source was missing
  missing-IsArrived :
      (e : QueueError)
      → (lookup p s ≡ none) ⊎ (lookup q s ≡ none)
      → Post (IsArrived p q s) (((gets (exists q)) >>= λ there. check there e) s)
  missing-IsArrived e w = elim (Option-cases (lookup q s)) [
    | inl h ↦ rw h (raised (IsArrived p q s) e s)
    | inr (y, h) ↦ elim w [
      | inr n ↦ absurd (none-some (sym n ∙ h))
      | inl n ↦ elim (Option-cases (target (some y))) [
        | inl m ↦ rw (h, m) (raised (IsArrived p q s) e s)
        | inr (j, m) ↦
            rw (h, m)
              (λ a r. record {
                gone = n;
                arrived = ap is_some h;
                same = λ x z. absurd (none-some (sym n ∙ z));
              })
      ]
    ]
  ]

  failed-IsArrived :
      (e : QueueError)
      → (e ≡ file_not_found → (lookup p s ≡ none) ⊎ (lookup q s ≡ none))
      → Post (IsArrived p q s) (handler q false e s)
  failed-IsArrived file_not_found w = missing-IsArrived file_not_found (w refl)
  failed-IsArrived file_exists w = raised (IsArrived p q s) file_exists s
  failed-IsArrived os_error w = raised (IsArrived p q s) os_error s
  failed-IsArrived (value_error m) w = raised (IsArrived p q s) (value_error m) s

  IsArrived-move :
      (r : Result QueueError Bool × Files)
      → IsMove p q s r
      → Post
          (IsArrived p q s)
          (caught (caught r (after_refusal os p q) raise) pure (handler q false))
  IsArrived-move r (refused {x} {y} h k l) = refused-IsArrived x y h k l
  IsArrived-move r (failed {e} w) = failed-IsArrived e w
  IsArrived-move r (moved {x} h k) =
      let at_target : lookup q (remove p (add q x s)) ≡ some x =
        lookup-remove_other q p (add q x s) (λ z. p_not_q (sym z)) ∙ lookup-add q x s in
      unfold after_refusal in
      (λ a t. record {
        gone = lookup-remove p (add q x s);
        arrived = ap is_some at_target;
        same = λ e z. ap target (at_target ∙ sym h ∙ z);
      })
  IsArrived-move r (undone {x} h k) = raised (IsArrived p q s) os_error (remove q (add q x s))
  IsArrived-move r (linked {x} h k) = raised (IsArrived p q s) os_error (add q x s)

  pub move_order-IsArrived :
      (f : TerminalFinalization)
      → f.claimed ≡ p
      → f.suppress_move_errors ≡ false
      → Post (IsArrived p q s) (move_order os f q s)
  unfolding move_order
  move_order-IsArrived f c n =
      rw (c, n)
        (IsArrived-move (move_without_replace os p q s) (move_without_replace-IsMove os p q s))
