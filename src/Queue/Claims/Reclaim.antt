-- ===== src/Queue/Claims/Reclaim.antt =====
-- The sweep of stale claims never touches the claim of a live owner.
use Prim.Native.String.{◌++◌ as append}
use chitra.Prelude.{
  truthy, codes, String, ◌≡◌, Bool, false, not, ◌||◌, some, List, [], ◌∷◌, Result, ok, err,
  if◌then◌else◌, Bool-cases, Option-cases, inl, inr, arith,
}
use chitra.Queue.{
  QueueSubdir, orders, in_flight, QueuePath, QueueError, Files, Os, Io, pure, raise, caught, ◌>>=◌,
  ◌>>◌, suppress, is_os_error, unlink, order_stem, marked_order, owner_marker, subdir,
  require_real_root, require_real_directory, require_safe_order_id, require_real_file, exists,
  listing, is_directory, real_kind, order_id_codes, is_symlink,
}
use chitra.Queue.Names.{IsMarker-owner_marker, marked_name}
use chitra.Queue.Moves.{move_without_replace}
use chitra.Queue.Claims.{
  pid_alive, read_owner_pid, owner_marker_path, give_back, reclaim_order, reclaim_order_of,
  reclaim_reservation, reclaim_reservation_of, reclaim_stale_claims, each,
}
use chitra.Queue.Claims.Untouched.{
  IsUntouched, claimed, pending, IsUntouched-refl, IsUntouched-caught, IsUntouched-then,
  remove_dead, move_dead,
}

last_false : (a b c : Bool) → (a || b || c) ≡ false → c ≡ false
last_false a b c h = ground arith

module _ (os : Os) where
  -- what holds before and after a routine holds after it is suppressed
  after_suppressed :
      (P : Files → Type 0) (r : Result QueueError (Unit {0}) × Files)
      → P r.1
      → P (caught r pure (λ e. if is_os_error e then pure tt else raise e)).1
  after_suppressed P (ok a, t) h = h
  after_suppressed P (err e, t) h = elim (Bool-cases (is_os_error e)) [
    | inl y ↦ rw y h
    | inr n ↦ rw n h
  ]

  after_pure :
      {A : Type 0} (P : Files → Type 0) (r : Result QueueError A × Files)
      → P r.1
      → P (caught r (λ _. pure tt) raise).1
  after_pure P (ok a, t) h = h
  after_pure P (err e, t) h = h

  -- the checks of a directory change nothing
  after_subdir :
      {A : Type 0} (P : Files → Type 0) (d : QueueSubdir) (f : QueueSubdir → Io A) (s : Files)
      → P s
      → P (f d s).1
      → P ((subdir d >>= f) s).1
  unfolding subdir require_real_root require_real_directory
  after_subdir P d f s h k = elim (Bool-cases (real_kind s.root)) [
    | inr a ↦ rw a h
    | inl a ↦ elim (Bool-cases (real_kind (s.kind d))) [ inr b ↦ rw (a, b) h | inl b ↦ rw (a, b) k ]
  ]

  after_marker_path :
      {A : Type 0} (P : Files → Type 0) (i : String) (f : QueuePath → Io A) (s : Files)
      → P s
      → P (f (owner_marker i) s).1
      → P ((owner_marker_path os i >>= f) s).1
  unfolding owner_marker_path subdir require_real_root require_real_directory require_safe_order_id
      require_real_file
  after_marker_path P i f s h k = elim (Bool-cases (real_kind s.root)) [
    | inr a ↦ rw a h
    | inl a ↦ elim (Bool-cases (real_kind (s.kind in_flight))) [
      | inr b ↦ rw (a, b) h
      | inl b ↦ elim (Bool-cases (order_id_codes (codes i))) [
        | inr c ↦ rw (a, b, c) h
        | inl c ↦ elim (Bool-cases (is_symlink (owner_marker i) s)) [
          | inl d ↦ rw (a, b, c, d) h
          | inr d ↦ rw (a, b, c, d) k
        ]
      ]
    ]
  ]

  give_back-IsUntouched :
      (n i : String) (s : Files)
      → order_stem n ≡ some i
      → pid_alive os (read_owner_pid os (owner_marker i) s) ≡ false
      → IsUntouched os s (give_back os n (owner_marker i) s).1
  unfolding give_back
  give_back-IsUntouched n i s h k =
      let o = owner_marker i in
      let P : Files → Type 0 =
        λ t. IsUntouched os s t × (pid_alive os (read_owner_pid os o t) ≡ false) in
      let m = move_without_replace os (claimed n) (pending n) in
      let first = (do subdir orders; m; pure tt) in
      let here = after_suppressed P (first s) (
        after_subdir P orders (λ _. m >> pure tt) s (IsUntouched-refl os s, k)
          (after_pure P (m s) (move_dead os n i s h k))) in
      let t = (suppress first s).1 in
      IsUntouched-caught os s (suppress first s) (λ _. suppress (unlink os o)) raise here.0
        (λ _. remove_dead os o t (IsMarker-owner_marker i) here.1) (λ e. IsUntouched-refl os t)

  reclaim_order-IsUntouched : (n : String) (s : Files) → IsUntouched os s (reclaim_order os n s).1
  unfolding reclaim_order reclaim_order_of
  reclaim_order-IsUntouched n s = elim (Option-cases (order_stem n)) [
    | inl e ↦ rw (e, reclaim_order_of) (IsUntouched-refl os s)
    | inr (i, e) ↦
        rw (e, reclaim_order_of)
          (after_marker_path (IsUntouched os s) i _ s (IsUntouched-refl os s)
            (elim (Bool-cases (pid_alive os (read_owner_pid os (owner_marker i) s))) [
              | inl a ↦ rw a (IsUntouched-refl os s)
              | inr a ↦ rw a (give_back-IsUntouched n i s e a)
            ]))
  ]

  reclaim_reservation-IsUntouched :
      (n : String) (s : Files) → IsUntouched os s (reclaim_reservation os n s).1
  unfolding reclaim_reservation reclaim_reservation_of
  reclaim_reservation-IsUntouched n s = elim (Option-cases (marked_order n)) [
    | inl e ↦ rw (e, reclaim_reservation_of) (IsUntouched-refl os s)
    | inr (i, e) ↦
        elim (Bool-cases (
          not (truthy i)
          || exists (claimed (append i ".json")) s
          || pid_alive os (read_owner_pid os (claimed n) s))) [
            | inl a ↦ rw (e, reclaim_reservation_of, a) (IsUntouched-refl os s)
            | inr a ↦
                rw (e, reclaim_reservation_of, a)
                  (remove_dead os (claimed n) s (marked_name n e)
                    (last_false (not (truthy i)) (exists (claimed (append i ".json")) s) _ a))
          ]
  ]

  each-IsUntouched :
      (f : String → Io (Unit {0})) (ns : List String) (s : Files)
      → ((n : String) (t : Files) → IsUntouched os t (f n t).1)
      → IsUntouched os s (each f ns s).1
  each-IsUntouched f [] s h = IsUntouched-refl os s
  each-IsUntouched f (n ∷ ns) s h =
      IsUntouched-then os s (f n) (λ _. each f ns) (h n s) (λ _. each-IsUntouched f ns (f n s).1 h)

  pub reclaim_stale_claims-IsUntouched :
      (s : Files) → IsUntouched os s (reclaim_stale_claims os s).1
  unfolding reclaim_stale_claims
  reclaim_stale_claims-IsUntouched s =
      after_subdir (IsUntouched os s) in_flight _ s (IsUntouched-refl os s)
        (elim (Bool-cases (is_directory (s.kind in_flight))) [
          | inr a ↦ rw a (IsUntouched-refl os s)
          | inl a ↦ rw a (
              IsUntouched-then os s (each (reclaim_order os) (listing in_flight s)) _
                (each-IsUntouched (reclaim_order os) (listing in_flight s) s
                  reclaim_order-IsUntouched)
                (λ _.
                  each-IsUntouched (reclaim_reservation os) (listing in_flight _) _
                    reclaim_reservation-IsUntouched))
        ])
