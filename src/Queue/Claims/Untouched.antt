-- ===== src/Queue/Claims/Untouched.antt =====
-- Files that agree on all that has a live owner.
use chitra.Prelude.{
  String, ◌≡◌, refl, sym, ap, ◌∙◌, true, false, some, Result, ok, err, Bool-cases, Option-cases,
  inl, inr,
}
use chitra.Queue.{
  orders, in_flight, QueuePath, QueueError, Files, Os, Io, pure, raise, caught, ◌>>=◌, suppress,
  is_os_error, unlink, unlink_at, lookup, order_stem, owner_marker, text_of, target,
}
use chitra.Queue.Entries.{lookup-remove_other}
use chitra.Queue.Names.{IsMarker, IsMarker-owner_marker, order_name, not_marker}
use chitra.Queue.Moves.{move_without_replace, move_without_replace-IsSafeMove}
use chitra.Queue.Claims.{pid_alive, read_owner_pid, owner_pid}

abbrev pub claimed : String → QueuePath
claimed n = record { dir = in_flight; name = n }

abbrev pub pending : String → QueuePath
pending n = record { dir = orders; name = n }

alive_dead : true ≡ false → ⊥
alive_dead h = cc

not_orders : in_flight ≡ orders → ⊥
not_orders h = cc

stems : {n c i j : String} → order_stem c ≡ some j → order_stem n ≡ some i → c ≡ n → j ≡ i
stems h k e = cc (h, k, ap order_stem e)

module _ (os : Os) where
  abbrev pub IsOwned : QueuePath → Files → Type 0
  IsOwned m s = pid_alive os (read_owner_pid os m s) ≡ true

  -- What has a live owner in `s` is the same in `t`.
  pub record IsUntouched (s t : Files) : Type 0 where
    pub text : t.text ≡ s.text
    pub next : t.next ≡ s.next
    pub marker : (m : QueuePath) → IsMarker m.name → IsOwned m s → lookup m t ≡ lookup m s
    pub order :
        (n : String) {i : String}
        → order_stem n ≡ some i
        → IsOwned (owner_marker i) s
        → lookup (record { dir = in_flight; name = n }) t
          ≡ lookup (record { dir = in_flight; name = n }) s

  pub IsUntouched-refl : (s : Files) → IsUntouched s s
  IsUntouched-refl s = record {
    text = refl;
    next = refl;
    marker = λ m h k. refl;
    order = λ n h k. refl;
  }

  pid_same :
      (m : QueuePath) (s t : Files)
      → t.text ≡ s.text
      → lookup m t ≡ lookup m s
      → read_owner_pid os m t ≡ read_owner_pid os m s
  pid_same m s t h k i = owner_pid os.int_of (text_of (target (k i)) (h i))

  IsOwned-still :
      (m : QueuePath) (s t : Files) → IsUntouched s t → IsMarker m.name → IsOwned m s → IsOwned m t
  IsOwned-still m s t u h k = ap (pid_alive os) (pid_same m s t u.text (u.marker m h k)) ∙ k

  IsUntouched-trans : (r s t : Files) → IsUntouched r s → IsUntouched s t → IsUntouched r t
  IsUntouched-trans r s t u v = record {
    text = v.text ∙ u.text;
    next = v.next ∙ u.next;
    marker = λ m h k. v.marker m h (IsOwned-still m r s u h k) ∙ u.marker m h k;
    order = λ n {i} h k.
        v.order n h (IsOwned-still (owner_marker i) r s u (IsMarker-owner_marker i) k)
        ∙ u.order n h k;
  }

  -- both arms of a `try` leave owned things alone
  pub IsUntouched-caught :
      {A B : Type 0} (s : Files) (r : Result QueueError A × Files) (f : A → Io B)
      (h : QueueError → Io B)
      → IsUntouched s r.1
      → ((a : A) → IsUntouched r.1 (f a r.1).1)
      → ((e : QueueError) → IsUntouched r.1 (h e r.1).1)
      → IsUntouched s (caught r f h).1
  IsUntouched-caught s (ok a, t) f h u v w = IsUntouched-trans s t (f a t).1 u (v a)
  IsUntouched-caught s (err e, t) f h u v w = IsUntouched-trans s t (h e t).1 u (w e)

  pub IsUntouched-then :
      {A B : Type 0} (s : Files) (m : Io A) (f : A → Io B)
      → IsUntouched s (m s).1
      → ((a : A) → IsUntouched (m s).1 (f a (m s).1).1)
      → IsUntouched s ((m >>= f) s).1
  IsUntouched-then s m f u v =
      IsUntouched-caught s (m s) f raise u v (λ e. IsUntouched-refl (m s).1)

  pub IsUntouched-suppress :
      (s : Files) (m : Io (Unit {0})) → IsUntouched s (m s).1 → IsUntouched s (suppress m s).1
  IsUntouched-suppress s m u =
      IsUntouched-caught s (m s) pure _ u (λ a. IsUntouched-refl (m s).1)
        (λ e. elim (Bool-cases (is_os_error e)) [
          | inl y ↦ rw y (IsUntouched-refl (m s).1)
          | inr n ↦ rw n (IsUntouched-refl (m s).1)
        ])

  -- Removing a marker whose owner is dead.
  pub remove_dead :
      (o : QueuePath) (s : Files)
      → IsMarker o.name
      → pid_alive os (read_owner_pid os o s) ≡ false
      → IsUntouched s (suppress (unlink os o) s).1
  unfolding unlink unlink_at
  remove_dead o s h k =
      IsUntouched-suppress s (unlink os o) (elim (Bool-cases (os.unlink_fails o)) [
        | inl f ↦ rw f (IsUntouched-refl s)
        | inr f ↦ elim (Option-cases (lookup o s)) [
          | inl e ↦ rw (f, e, unlink_at) (IsUntouched-refl s)
          | inr (x, e) ↦
              rw (f, e, unlink_at)
                (record {
                  text = refl;
                  next = refl;
                  marker = λ m a b. lookup-remove_other m o s (λ q.
                      alive_dead (sym b ∙ ap (λ r. pid_alive os (read_owner_pid os r s)) q ∙ k));
                  order = λ n a b.
                      lookup-remove_other (record { dir = in_flight; name = n }) o s
                        (λ q.
                          not_marker o (record { dir = in_flight; name = n }) h (order_name n a)
                            (sym q));
                })
        ]
      ])

  -- Moving an order back whose owner is dead.
  pub move_dead :
      (n : String) (i : String) (s : Files)
      → order_stem n ≡ some i
      → pid_alive os (read_owner_pid os (owner_marker i) s) ≡ false
      → IsUntouched s (move_without_replace os (claimed n) (pending n) s).1
        × (pid_alive os (
              read_owner_pid os
                (owner_marker i)
                (move_without_replace os (claimed n) (pending n) s).1)
            ≡ false)
  move_dead n i s h k =
      let safe = move_without_replace-IsSafeMove os (claimed n) (pending n) s in
      let t = (move_without_replace os (claimed n) (pending n) s).1 in
      let markers : (m : QueuePath) → IsMarker m.name → lookup m t ≡ lookup m s = λ m a.
        safe.others m (not_marker m (claimed n) a (order_name n h))
          (not_marker m (pending n) a (order_name n h)) in
      (
        record {
          text = safe.text;
          next = safe.next;
          marker = λ m a b. markers m a;
          order = λ c {i = j} a b.
              safe.others (claimed c)
                (λ q. alive_dead (
                  sym b
                  ∙ ap (λ z. pid_alive os (read_owner_pid os (owner_marker z) s))
                      (stems a h (ap (λ r. r.name) q))
                  ∙ k))
                (λ q. not_orders (ap (λ r. r.dir) q));
        },
        ap (pid_alive os) (
              pid_same (owner_marker i) s t safe.text
                (markers (owner_marker i) (IsMarker-owner_marker i)))
            ∙ k,
      )
