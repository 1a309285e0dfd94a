-- ===== src/Queue/Claims.antt =====
-- `reserve_claim`, `ClaimReservation`, `read_owner_pid` and `reclaim_stale_claims`.
pub mod Untouched
pub mod Reclaim
pub mod Markers
pub mod Exclusion
pub mod Workers
pub mod Locks
use Prim.Native.String.{◌++◌ as append}
use chitra.Prelude.{
  ℕ, String, ◌==◌, Bool, true, false, not, ◌&&◌, ◌||◌, Option, none, some, List, [], ◌∷◌,
  if◌then◌else◌, Result, ok, err, ltb, truthy, strip,
}
use chitra.Queue.Publish.{temporary, publish}
use chitra.Queue.Moves.{is_file_exists, move_without_replace}
use chitra.Queue.{
  QueueSubdir, orders, in_flight, QueuePath, QueueError, value_error, Files, Os, ℤ, pos, negsuc, Io,
  pure, raise, gets, catch, ◌>>=◌, ◌>>◌, suppress, check, is_symlink, exists, read_text, link,
  unlink, rename, with_temporary, make_directory, require_real_directory, require_safe_order_id,
  require_real_file, subdir, dotted, owner_marker, order_stem, marked_order, listing, same_path,
  lookup, is_directory,
}

pub record ClaimReservation : Type 0 where
  pub order_id : String

abbrev pub marker_path : ClaimReservation → QueuePath
marker_path c = owner_marker c.order_id

-- int(text.strip()), and 0 for what cannot be read
unfoldable pub owner_pid : (String → Option ℤ) → Option String → ℤ
unfolding strip
owner_pid int_of none = pos 0
owner_pid int_of (some t) = elim (int_of (strip t)) [ none ↦ pos 0 | some n ↦ n ]

abbrev pub each : (String → Io (Unit {0})) → List String → Io (Unit {0})
each f [] = pure tt
each f (n ∷ ns) = f n >> each f ns

module _ (os : Os) where
  -- pid and _pid_alive(pid)
  unfoldable pub pid_alive : ℤ → Bool
  pid_alive (pos n) = ltb 0 n && os.can_signal n
  pid_alive (negsuc n) = false

  abbrev pub read_owner_pid : QueuePath → Files → ℤ
  read_owner_pid p s = owner_pid os.int_of (read_text p s)

  unfoldable pub reserve_claim : ℕ → String → Io (Option ClaimReservation)
  reserve_claim pid i = do
    require_safe_order_id i
    require_real_directory in_flight
    make_directory in_flight
    require_real_file (owner_marker i)
    let tmp = temporary in_flight i ".owner" os.random
    catch (publish os tmp (owner_marker i) (os.str_of pid))
        (λ _. pure (some (record { order_id = i })))
        (λ e. if is_file_exists e then pure none else raise e)

  -- `ClaimReservation.claim`, for a path that is a child of the queue
  unfoldable pub claim : QueuePath → Io QueuePath
  claim pending = do
    require_real_directory in_flight
    require_real_directory orders
    check (same_path pending (record { dir = orders; name = pending.name }))
        (value_error "order path must be an exact child")
    require_real_file pending
    let claimed : QueuePath = record { dir = in_flight; name = pending.name }
    require_real_file claimed
    rename os pending claimed
    pure claimed

  pub release : ClaimReservation → Io (Unit {0})
  release c = suppress (unlink os (marker_path c))

  -- `QueueLayout.owner_marker_path`
  owner_marker_path : String → Io QueuePath
  owner_marker_path i = do
    subdir in_flight
    require_safe_order_id i
    require_real_file (owner_marker i)
    pure (owner_marker i)

  -- The loop over "*.json": the claim of a dead owner goes back to the orders.
  give_back : String → QueuePath → Io (Unit {0})
  give_back n owner = do
    suppress (do
      subdir orders
      move_without_replace os (record { dir = in_flight; name = n })
          (record { dir = orders; name = n })
      pure tt)
    suppress (unlink os owner)

  reclaim_order_of : String → Option String → Io (Unit {0})
  unfolding give_back owner_marker_path
  reclaim_order_of n none = pure tt
  reclaim_order_of n (some i) = do
    owner ← owner_marker_path i
    pid ← gets (read_owner_pid owner)
    if pid_alive pid then pure tt else give_back n owner

  reclaim_order : String → Io (Unit {0})
  unfolding reclaim_order_of
  reclaim_order n = reclaim_order_of n (order_stem n)

  -- The loop over ".*.owner": a dead owner's marker without an order goes.
  reclaim_reservation_of : String → Option String → Io (Unit {0})
  reclaim_reservation_of n none = pure tt
  reclaim_reservation_of n (some i) = do
    claimed ← gets (exists (record { dir = in_flight; name = append i ".json" }))
    pid ← gets (read_owner_pid (record { dir = in_flight; name = n }))
    if not (truthy i) || claimed || pid_alive pid
        then pure tt
        else suppress (unlink os (record { dir = in_flight; name = n }))

  reclaim_reservation : String → Io (Unit {0})
  unfolding reclaim_reservation_of
  reclaim_reservation n = reclaim_reservation_of n (marked_order n)

  unfoldable pub reclaim_stale_claims : Io (Unit {0})
  unfolding reclaim_order reclaim_reservation
  reclaim_stale_claims = do
    subdir in_flight
    there ← gets (λ s. is_directory (s.kind in_flight))
    if not there then pure tt else (do
      claims ← gets (listing in_flight)
      each reclaim_order claims
      markers ← gets (listing in_flight)
      each reclaim_reservation markers)
