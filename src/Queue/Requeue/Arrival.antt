-- ===== src/Queue/Requeue/Arrival.antt =====
-- A requeue sweep goes by the order of arrival, and tells of every order that it looked at.
use chitra.Prelude.{
  ℕ, ◌+◌, ◌≤◌, String, ◌≡◌, refl, sym, ap, ◌∙◌, Bool, true, false, some, List, [], ◌∷◌, ◌++◌,
  length, length-append, Result, ok, err, ok_inj, subst, if◌then◌else◌, Bool-cases, Option-cases,
  inl, inr, ◌⊎◌, arith, All,
}
use chitra.Prelude.Sort.{sorted, IsRanked, sorted-IsRanked, All-sorted, length-sorted}
use chitra.Queue.{
  deferred, QueuePath, QueueError, Files, Os, pure, raise, caught, is_os_error, exists, target,
  lookup, listing, order_stem,
}
use chitra.Queue.Moves.{move_without_replace}
use chitra.Queue.Requeue.{
  Dated, RequeueOutcome, parked, pending, arrived_before, dated, dated_one, with_requeued,
  with_skipped, with_failed, requeue_one, requeue_all, requeue_deferred_to_orders,
}
use mathlib.Core.List.{append_assoc, append-nil}

pub data IsSublist : List Dated → List Dated → Type 0 where
  done : IsSublist [] []
  take : {d : Dated} {xs ys : List Dated} → IsSublist xs ys → IsSublist (d ∷ xs) (d ∷ ys)
  leave : {d : Dated} {xs ys : List Dated} → IsSublist xs ys → IsSublist xs (d ∷ ys)

All-IsSublist : (P : Dated → Type 0) {xs ys : List Dated} → IsSublist xs ys → All P ys → All P xs
All-IsSublist P done h = tt
All-IsSublist P (take s) h = (h.0, All-IsSublist P s h.1)
All-IsSublist P (leave s) h = All-IsSublist P s h.1

abbrev time : Dated → ℕ
time d = d.mtime

IsRanked-IsSublist : {xs ys : List Dated} → IsSublist xs ys → IsRanked time ys → IsRanked time xs
IsRanked-IsSublist done h = tt
IsRanked-IsSublist (take {d} s) h =
    (All-IsSublist (λ e. d.mtime ≤ e.mtime) s h.0, IsRanked-IsSublist s h.1)
IsRanked-IsSublist (leave s) h = IsRanked-IsSublist s h.1

abbrev total : RequeueOutcome → ℕ
total o = length o.requeued + length o.skipped_existing_target + length o.failed

abbrev targets : List Dated → List QueuePath
targets [] = []
targets (d ∷ ds) = pending d.name ∷ targets ds

-- one order: it is requeued, or the list of requeued ones stays
record IsNext (d : Dated) (o o' : RequeueOutcome) : Type 0 where
  counted : total o' ≡ total o + 1
  listed : (o'.requeued ≡ o.requeued ++ pending d.name ∷ []) ⊎ (o'.requeued ≡ o.requeued)

IsNext-requeued : (d : Dated) (o : RequeueOutcome) → IsNext d o (with_requeued (pending d.name) o)
IsNext-requeued d o = record {
  counted = omega (arith, length-append o.requeued (pending d.name ∷ []));
  listed = inl refl;
}

IsNext-skipped : (d : Dated) (o : RequeueOutcome) → IsNext d o (with_skipped (parked d.name) o)
IsNext-skipped d o = record {
  counted = omega (arith, length-append o.skipped_existing_target (parked d.name ∷ []));
  listed = inr refl;
}

IsNext-failed : (d : Dated) (o : RequeueOutcome) → IsNext d o (with_failed (parked d.name) o)
IsNext-failed d o = record {
  counted = omega (arith, length-append o.failed (parked d.name ∷ []));
  listed = inr refl;
}

not_ok :
    {e : QueueError} {o : RequeueOutcome}
    → ◌≡◌ {A = Result QueueError RequeueOutcome} (err e) (ok o)
    → ⊥
not_ok h = cc

module _ (os : Os) where
  IsNext-moved :
      (d : Dated) (o : RequeueOutcome) {o' : RequeueOutcome} (r : Result QueueError Bool × Files)
      → (caught r
          (λ moved.
            if moved
            then pure (with_requeued (pending d.name) o)
            else pure (with_skipped (parked d.name) o))
          (λ e. if is_os_error e then pure (with_failed (parked d.name) o) else raise e)).0
        ≡ ok o'
      → IsNext d o o'
  IsNext-moved d o (ok true, t) h = subst (IsNext d o) (ok_inj h) (IsNext-requeued d o)
  IsNext-moved d o (ok false, t) h = subst (IsNext d o) (ok_inj h) (IsNext-skipped d o)
  IsNext-moved d o (err e, t) h = elim (Bool-cases (is_os_error e)) [
    | inl y ↦ subst (IsNext d o) (ok_inj (rw y at h)) (IsNext-failed d o)
    | inr n ↦ absurd (not_ok (rw n at h))
  ]

  IsNext-one :
      (d : Dated) (o : RequeueOutcome) (s : Files) {o' : RequeueOutcome}
      → (requeue_one os d o s).0 ≡ ok o'
      → IsNext d o o'
  unfolding requeue_one
  IsNext-one d o s h = elim (Bool-cases (exists (pending d.name) s)) [
    | inl a ↦ subst (IsNext d o) (ok_inj (rw a at h)) (IsNext-skipped d o)
    | inr a ↦
        IsNext-moved d o (move_without_replace os (parked d.name) (pending d.name) s) (rw a at h)
  ]

  record IsTold (ds : List Dated) (o o' : RequeueOutcome) : Type 0 where
    chosen : List Dated
    sublist : IsSublist chosen ds
    listed : o'.requeued ≡ o.requeued ++ targets chosen
    counted : total o' ≡ total o + length ds

  IsTold-step :
      (d : Dated) (ds : List Dated) {o o1 o' : RequeueOutcome}
      → IsNext d o o1
      → IsTold ds o1 o'
      → IsTold (d ∷ ds) o o'
  IsTold-step d ds {o = o} {o1 = o1} n k = elim n.listed [
    | inl e ↦ record {
      chosen = d ∷ k.chosen;
      sublist = take k.sublist;
      listed =
          k.listed
          ∙ ap (λ l. l ++ targets k.chosen) e
          ∙ append_assoc o.requeued (pending d.name ∷ []) (targets k.chosen);
      counted = omega (arith, k.counted, n.counted);
    }
    | inr e ↦ record {
      chosen = k.chosen;
      sublist = leave k.sublist;
      listed = k.listed ∙ ap (λ l. l ++ targets k.chosen) e;
      counted = omega (arith, k.counted, n.counted);
    }
  ]

  IsTold-bind :
      (d : Dated) (ds : List Dated) (o : RequeueOutcome) {o' : RequeueOutcome}
      (r : Result QueueError RequeueOutcome × Files)
      → ((o1 : RequeueOutcome) → r.0 ≡ ok o1 → IsNext d o o1)
      → ((o1 : RequeueOutcome) (t : Files) → (requeue_all os ds o1 t).0 ≡ ok o' → IsTold ds o1 o')
      → (caught r (requeue_all os ds) raise).0 ≡ ok o'
      → IsTold (d ∷ ds) o o'
  IsTold-bind d ds o (ok o1, t) n k h = IsTold-step d ds (n o1 refl) (k o1 t h)
  IsTold-bind d ds o (err e, t) n k h = absurd (not_ok h)

  IsTold-all :
      (ds : List Dated) (o : RequeueOutcome) (s : Files) {o' : RequeueOutcome}
      → (requeue_all os ds o s).0 ≡ ok o'
      → IsTold ds o o'
  unfolding requeue_all
  IsTold-all [] o s h = record {
    chosen = [];
    sublist = done;
    listed = ap (λ p. p.requeued) (sym (ok_inj h)) ∙ sym (append-nil o.requeued);
    counted = ap total (sym (ok_inj h)) ∙ omega arith;
  }
  IsTold-all (d ∷ ds) o s h =
      IsTold-bind d ds o (requeue_one os d o s) (λ o1. IsNext-one d o s)
        (λ o1 t k. IsTold-all ds o1 t k) h

le_mtime : (a b : Dated) → arrived_before a b ≡ true → a.mtime ≤ b.mtime
unfolding arrived_before
le_mtime a b h = ground arith

le_mtime_else : (a b : Dated) → arrived_before b a ≡ false → a.mtime ≤ b.mtime
unfolding arrived_before
le_mtime_else a b h = ground arith

module _ (eligible : QueuePath → Bool) (mtime : ℕ → ℕ) (s : Files) where
  -- an order of the sweep is eligible and has its file's inode and time
  pub record IsDated (d : Dated) : Type 0 where
    pub chosen : eligible (parked d.name) ≡ true
    pub found : target (lookup (parked d.name) s) ≡ some d.inode
    pub timed : d.mtime ≡ mtime d.inode

  All-dated : (ns : List String) → All IsDated (dated eligible mtime s ns)
  unfolding dated dated_one
  All-dated [] = tt
  All-dated (n ∷ ns) = elim (Bool-cases (eligible (parked n))) [
    | inr a ↦ rw (a, dated_one) (All-dated ns)
    | inl a ↦ elim (Option-cases (order_stem n)) [
      | inl b ↦ rw (a, b, dated_one) (All-dated ns)
      | inr (i, b) ↦ elim (Option-cases (target (lookup (parked n) s))) [
        | inl c ↦ rw (a, b, c, dated_one) (All-dated ns)
        | inr (x, c) ↦
            rw (a, b, c, dated_one) (record { chosen = a; found = c; timed = refl }, All-dated ns)
      ]
    ]
  ]

  -- the orders that a sweep moved
  pub record IsFifo (o : RequeueOutcome) : Type 0 where
    pub moved : List Dated
    pub listed : o.requeued ≡ targets moved
    pub in_order : IsRanked time moved
    pub all_dated : All IsDated moved
    pub counted : total o ≡ length (dated eligible mtime s (listing deferred s))

  -- When a requeue sweep returns, the paths that it lists as requeued are, in order of arrival, those of
  -- eligible parked orders, and it lists as many requeued, skipped and failed orders as it found.
  pub requeue_deferred_to_orders-IsFifo :
      (os : Os) {o : RequeueOutcome}
      → (requeue_deferred_to_orders os eligible mtime s).0 ≡ ok o
      → IsFifo o
  unfolding requeue_deferred_to_orders
  requeue_deferred_to_orders-IsFifo os h =
      let found = dated eligible mtime s (listing deferred s) in
      let told = IsTold-all os (sorted arrived_before found) _ s h in
      record {
        moved = told.chosen;
        listed = told.listed;
        in_order =
            IsRanked-IsSublist told.sublist
              (sorted-IsRanked arrived_before time le_mtime le_mtime_else found);
        all_dated =
            All-IsSublist IsDated told.sublist
              (All-sorted arrived_before IsDated found (All-dated (listing deferred s)));
        counted = omega (arith, told.counted, length-sorted arrived_before found);
      }
