-- ===== src/Queue/Requeue/Fifo.antt =====
-- A requeue sweep keeps the order of arrival and loses no order.
use chitra.Prelude.{
  ℕ, String, ◌≡◌, ◌≢◌, sym, ap, ◌∙◌, Bool, true, false, some, List, [], ◌∷◌, Result, ok, err,
  if◌then◌else◌, Bool-cases, inl, inr, ◌⊎◌,
}
use chitra.Prelude.Sort.{sorted}
use chitra.Queue.{
  orders, deferred, QueuePath, Entry, QueueError, Files, Os, Io, pure, raise, caught, is_os_error,
  exists, lookup, listing, same_path,
}
use chitra.Queue.Moves.{move_without_replace, move_without_replace-IsSafeMove}
use chitra.Queue.Entries.{same_path_sound, same_path_refl}
use chitra.Queue.Requeue.{
  Dated, RequeueOutcome, parked, pending, arrived_before, dated, with_requeued, with_skipped,
  with_failed, requeue_one, requeue_all, requeue_deferred_to_orders,
}

-- Pending orders stay as they are, and a parked order stays or is pending.
pub record IsSafeSweep (s t : Files) : Type 0 where
  pub pending_kept :
      (n : String) {e : Entry} → lookup (pending n) s ≡ some e → lookup (pending n) t ≡ some e
  pub parked_kept :
      (n : String) {e : Entry}
      → lookup (parked n) s ≡ some e
      → (lookup (parked n) t ≡ some e) ⊎ (lookup (pending n) t ≡ some e)

safe_refl : (s : Files) → IsSafeSweep s s
safe_refl s = record { pending_kept = λ n h. h; parked_kept = λ n h. inl h }

safe_trans : (r s t : Files) → IsSafeSweep r s → IsSafeSweep s t → IsSafeSweep r t
safe_trans r s t a b = record {
  pending_kept = λ n h. b.pending_kept n (a.pending_kept n h);
  parked_kept = λ n h. elim (a.parked_kept n h) [
    | inl k ↦ b.parked_kept n k
    | inr k ↦ inr (b.pending_kept n k)
  ];
}

dirs_differ : deferred ≡ orders → ⊥
dirs_differ h = cc

unequal : false ≡ true → ⊥
unequal h = cc

parked_not_pending : (m n : String) → parked m ≢ pending n
parked_not_pending m n e = dirs_differ (ap (λ p. p.dir) e)

safe_move :
    (os : Os) (n : String) (s : Files)
    → IsSafeSweep s (move_without_replace os (parked n) (pending n) s).1
safe_move os n s =
    let safe = move_without_replace-IsSafeMove os (parked n) (pending n) s in
    let t = (move_without_replace os (parked n) (pending n) s).1 in
    record {
      pending_kept = λ m {e} h. elim (Bool-cases (same_path (pending m) (pending n))) [
        | inl c ↦
            let k = same_path_sound (pending m) (pending n) c in
            ap (λ p. lookup p t) k ∙ safe.not_replaced (ap (λ p. lookup p s) (sym k) ∙ h)
        | inr c ↦
            safe.others (pending m) (λ k. parked_not_pending n m (sym k))
              (λ k.
                unequal (sym c ∙ ap (λ p. same_path p (pending n)) k ∙ same_path_refl (pending n)))
            ∙ h
      ];
      parked_kept = λ m {e} h. elim (Bool-cases (same_path (parked m) (parked n))) [
        | inl c ↦
            let k = same_path_sound (parked m) (parked n) c in
            let l : pending m ≡ pending n = ap (λ p. pending p.name) k in
            elim (safe.not_lost (ap (λ p. lookup p s) (sym k) ∙ h)) [
              | inl x ↦ inl (ap (λ p. lookup p t) k ∙ x)
              | inr x ↦ inr (ap (λ p. lookup p t) l ∙ x)
            ]
        | inr c ↦ inl (
            safe.others (parked m)
              (λ k.
                unequal (sym c ∙ ap (λ p. same_path p (parked n)) k ∙ same_path_refl (parked n)))
              (parked_not_pending m n)
            ∙ h)
      ];
    }

module _ (P : Files → Type 0) where
  after_move :
      (r : Result QueueError Bool × Files) (f : Bool → RequeueOutcome) (g : RequeueOutcome)
      → P r.1
      → P
          (caught r
            (λ moved. if moved then pure (f true) else pure (f false))
            (λ e. if is_os_error e then pure g else raise e)).1
  after_move (ok true, t) f g h = h
  after_move (ok false, t) f g h = h
  after_move (err e, t) f g h = elim (Bool-cases (is_os_error e)) [
    | inl y ↦ rw y h
    | inr n ↦ rw n h
  ]

module _ (os : Os) where
  safe_one : (d : Dated) (o : RequeueOutcome) (s : Files) → IsSafeSweep s (requeue_one os d o s).1
  unfolding requeue_one
  safe_one d o s = elim (Bool-cases (exists (pending d.name) s)) [
    | inl a ↦ rw a (safe_refl s)
    | inr a ↦ rw a (
        after_move (IsSafeSweep s) (move_without_replace os (parked d.name) (pending d.name) s)
          (λ b. if b then with_requeued (pending d.name) o else with_skipped (parked d.name) o)
          (with_failed (parked d.name) o) (safe_move os d.name s))
  ]

  safe_bind :
      (s : Files) (r : Result QueueError RequeueOutcome × Files)
      (k : RequeueOutcome → Io RequeueOutcome)
      → IsSafeSweep s r.1
      → ((o : RequeueOutcome) (t : Files) → IsSafeSweep t (k o t).1)
      → IsSafeSweep s (caught r k raise).1
  safe_bind s (ok o, t) k h g = safe_trans s t (k o t).1 h (g o t)
  safe_bind s (err e, t) k h g = h

  safe_all :
      (ds : List Dated) (o : RequeueOutcome) (s : Files) → IsSafeSweep s (requeue_all os ds o s).1
  unfolding requeue_all
  safe_all [] o s = safe_refl s
  safe_all (d ∷ ds) o s =
      safe_bind s (requeue_one os d o s) (requeue_all os ds) (safe_one d o s) (safe_all ds)

  -- Whatever calls fail and whether the sweep returns or raises, every order that was pending stays as
  -- it is, and every parked order is still parked or is pending under its name.
  pub requeue_deferred_to_orders-IsSafeSweep :
      (eligible : QueuePath → Bool) (mtime : ℕ → ℕ) (s : Files)
      → IsSafeSweep s (requeue_deferred_to_orders os eligible mtime s).1
  unfolding requeue_deferred_to_orders
  requeue_deferred_to_orders-IsSafeSweep eligible mtime s =
      safe_all (sorted arrived_before (dated eligible mtime s (listing deferred s))) _ s
