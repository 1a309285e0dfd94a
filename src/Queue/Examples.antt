-- ===== src/Queue/Examples.antt =====
-- A queue with a claim of a live worker, one of a dead worker, pending and parked orders.
use chitra.Prelude.{
  ℕ, zero, suc, ◌+◌, ◌-◌, String, ◌≡◌, ◌≢◌, refl, sym, ap, Bool, true, false, Option, none, some,
  [], ◌∷◌, ok, if◌then◌else◌, eqb, arith, strip, drop_prefix,
}
use chitra.Queue.{
  QueueSubdir, orders, in_flight, deferred, processed, directory, QueuePath, file, Files, Os, ℤ,
  pos, lookup, order_stem, result_file, owner_marker, require_safe_order_id, require_real_directory,
  require_real_file, make_directory, find_entry, same_path, with_temporary, create, link, unlink,
  subdir, require_real_root, listing, drop_suffix, text_of, marked_order, without, remove, rename,
}
use chitra.Queue.Moves.{move_without_replace, IsSafeMove, move_without_replace-IsSafeMove}
use chitra.Queue.Publish.{publish}
use chitra.Prelude.Sort.{sorted}
use chitra.Queue.Claims.{pid_alive, owner_pid, reclaim_stale_claims, reserve_claim, claim}
use chitra.Queue.Claims.Workers.{System}
use chitra.Queue.Records.{record_attempt, write_json_atomic, on_error}
use chitra.Queue.Records.Counts.{attempts-record_attempt}
use chitra.Queue.Results.{attempts, TerminalFinalization, apply, create_once, send_nonce}
use chitra.Queue.Results.First.{Attempt, after, first_result_stands}
use chitra.Queue.Results.Arrive.{IsArrived}
use chitra.Queue.Results.Final.{apply-IsArrived}
use chitra.Queue.Requeue.{RequeueOutcome, arrived_before, dated, requeue_deferred_to_orders}
use chitra.Queue.Requeue.Fifo.{IsSafeSweep, requeue_deferred_to_orders-IsSafeSweep}
use chitra.Queue.Requeue.Arrival.{IsFifo, requeue_deferred_to_orders-IsFifo}
use chitra.Queue.Once.{HasText}

-- a process id, written in strokes
strokes : ℕ → String
strokes zero = ""
strokes (suc n) = String.◌∷◌ "I" (strokes n)

count : String → ℕ
count String.[] = 0
count (String.◌∷◌ c s) = count s + 1

abbrev read_strokes : String → Option ℤ
read_strokes s = some (pos (count s))

count-strokes : (n : ℕ) → count (strokes n) ≡ n
unfolding strokes count
count-strokes zero = refl
count-strokes (suc n) = omega (arith, count-strokes n)

-- no call fails, and the processes 1 and 2 can be signalled
abbrev alive : ℕ → Bool
alive n = if eqb n 1 then true else eqb n 2

abbrev os : Os
os = record {
  link_fails = λ p q. false;
  unlink_fails = λ p. false;
  rename_fails = λ p q. false;
  create_fails = λ p. false;
  can_signal = alive;
  int_of = read_strokes;
  str_of = strokes;
  random = "r";
}

abbrev at : QueueSubdir → String → QueuePath
at d n = record { dir = d; name = n }

abbrev files : Files
files = record {
  entries =
      (at in_flight "a.json", file 0)
      ∷ (at in_flight ".a.owner", file 1)
      ∷ (at in_flight "b.json", file 2)
      ∷ (at in_flight ".b.owner", file 3)
      ∷ (at orders "c.json", file 4)
      ∷ (at deferred "d.json", file 5)
      ∷ (at deferred "e.json", file 6)
      ∷ [];
  text = λ n. if eqb n 1 then "I" else if eqb n 3 then "III" else "{}";
  next = 7;
  root = directory;
  kind = λ d. directory;
}

abbrev swept_files : Files
swept_files = (reclaim_stale_claims os files).1

-- the live worker keeps its order, and the dead one's goes back
live_kept : lookup (at in_flight "a.json") swept_files ≡ some (file 0)
unfolding reclaim_stale_claims strokes count find_entry subdir require_real_root
    require_real_directory listing order_stem drop_suffix require_safe_order_id require_real_file
    same_path pid_alive owner_pid text_of move_without_replace link unlink drop_prefix strip
    marked_order without
live_kept = refl

dead_returned : lookup (at orders "b.json") swept_files ≡ some (file 2)
unfolding reclaim_stale_claims strokes count find_entry subdir require_real_root
    require_real_directory listing order_stem drop_suffix require_safe_order_id require_real_file
    same_path pid_alive owner_pid text_of move_without_replace link unlink drop_prefix strip
    marked_order without
dead_returned = refl

abbrev system : System
system = record { files = files; signalable = alive; holders = [] }

-- the live worker 1 reserves "c", and a sweep follows
abbrev reserving : System
reserving = record system { files = (reserve_claim os 1 "c" files).1; holders = (1, "c") ∷ [] }

attempts-record_attempt_example :
    (attempts
      (λ t. some (count t))
      "d"
      (record_attempt os (λ t. some (count t)) strokes "d" files).1).0
    ≡ ok 1
unfolding record_attempt attempts write_json_atomic on_error strokes count require_safe_order_id
    require_real_directory make_directory find_entry same_path create rename text_of without
attempts-record_attempt_example =
    attempts-record_attempt os (λ t. some (count t)) strokes "d" files
      (λ m. ap (λ k. some k) (count-strokes m)) refl

move_without_replace-IsSafeMove_example :
    IsSafeMove
      (at in_flight "b.json")
      (at orders "c.json")
      files
      (move_without_replace os (at in_flight "b.json") (at orders "c.json") files)
move_without_replace-IsSafeMove_example =
    move_without_replace-IsSafeMove os (at in_flight "b.json") (at orders "c.json") files

abbrev first : Attempt
first = record { os = os; order_id = "a"; payload = "sent" }

abbrev second : Attempt
second = record { os = os; order_id = "a"; payload = "failed" }

abbrev after_first : Files
after_first = (create_once os "a" "sent" files).1

first_result_stands_example :
    (lookup (result_file "a") files ≡ none)
    × HasText (result_file "a") "sent" (after (second ∷ []) after_first)
    × ((o : Os) (payload : String)
        → (create_once o "a" payload (after (second ∷ []) after_first)).0 ≢ ok true)
unfolding create_once require_safe_order_id require_real_directory require_real_file make_directory
    find_entry same_path publish with_temporary create link unlink without
first_result_stands_example = first_result_stands first (second ∷ []) files refl

abbrev finalization : TerminalFinalization
finalization = record {
  claimed = at in_flight "a.json";
  order_id = "a";
  destination = processed;
  result_payload = some "sent";
  retry_state = true;
  nonce_path = some (send_nonce "a");
  suppress_move_errors = false;
}

dirs_differ : in_flight ≡ processed → ⊥
dirs_differ h = cc

nonce_inj : {p q : QueuePath} → ◌≡◌ {A = Option QueuePath} (some p) (some q) → p ≡ q
nonce_inj h = cc

apply-IsArrived_example :
    IsArrived (at in_flight "a.json") (at processed "a.json") files (apply os finalization files).1
unfolding apply create_once order_stem drop_suffix move_without_replace require_safe_order_id
    require_real_directory require_real_file make_directory find_entry same_path publish
    with_temporary create link unlink without
apply-IsArrived_example =
    apply-IsArrived os finalization files refl (λ e. dirs_differ (ap (λ p. p.dir) e)) refl
      (λ n e. ap (λ p. order_stem p.name) (sym (nonce_inj e))) true refl

-- the later file has the smaller inode
abbrev mtime : ℕ → ℕ
mtime n = 9 - n

abbrev both_moved : RequeueOutcome
both_moved = record {
  requeued = at orders "e.json" ∷ at orders "d.json" ∷ [];
  skipped_existing_target = [];
  failed = [];
}

requeue_deferred_to_orders-IsFifo_example : IsFifo (λ p. true) mtime files both_moved
unfolding requeue_deferred_to_orders listing order_stem drop_suffix move_without_replace find_entry
    same_path link unlink sorted arrived_before dated without
requeue_deferred_to_orders-IsFifo_example =
    requeue_deferred_to_orders-IsFifo (λ p. true) mtime files os refl

requeue_deferred_to_orders-IsSafeSweep_example :
    IsSafeSweep files (requeue_deferred_to_orders os (λ p. true) mtime files).1
requeue_deferred_to_orders-IsSafeSweep_example =
    requeue_deferred_to_orders-IsSafeSweep os (λ p. true) mtime files

-- The dead worker's order "b", while another file of that name is pending.
abbrev doubled : Files
doubled = record files { entries = (at orders "b.json", file 7) ∷ files.entries }

abbrev swept_doubled : Files
swept_doubled = (reclaim_stale_claims os doubled).1

-- The sweep leaves the order and takes its marker, and the next claim replaces the order.
marker_gone : lookup (owner_marker "b") swept_doubled ≡ none
unfolding reclaim_stale_claims strokes count find_entry subdir require_real_root
    require_real_directory listing order_stem drop_suffix require_safe_order_id require_real_file
    same_path pid_alive owner_pid text_of move_without_replace link unlink drop_prefix strip
    marked_order without
marker_gone = refl

order_left : lookup (at in_flight "b.json") swept_doubled ≡ some (file 2)
unfolding reclaim_stale_claims strokes count find_entry subdir require_real_root
    require_real_directory listing order_stem drop_suffix require_safe_order_id require_real_file
    same_path pid_alive owner_pid text_of move_without_replace link unlink drop_prefix strip
    marked_order without
order_left = refl

order_replaced :
    lookup
      (at in_flight "b.json")
      (claim os (at orders "b.json") (remove (owner_marker "b") doubled)).1
    ≡ some (file 7)
unfolding claim find_entry require_real_directory require_real_file same_path rename without
order_replaced = refl
