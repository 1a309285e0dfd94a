-- ===== src/Queue/Requeue.antt =====
-- `requeue_deferred_to_orders`. The time of a file's last change is a function of its inode, since a
-- rename keeps it.
pub mod Fifo
pub mod Arrival
use chitra.Prelude.{
  ℕ, String, ◌==◌, Bool, true, false, not, ◌&&◌, ◌||◌, Option, none, some, List, [], ◌∷◌, ◌++◌,
  if◌then◌else◌, Result, ok, err, ltb, eqb,
}
use chitra.Prelude.Sort.{sorted}
use chitra.Queue.{
  QueueSubdir, orders, deferred, QueuePath, QueueError, Files, Os, Io, pure, raise, gets, catch,
  ◌>>=◌, ◌>>◌, is_os_error, exists, target, lookup, order_stem, listing,
}
use chitra.Queue.Moves.{move_without_replace}

pub record Dated : Type 0 where
  pub mtime : ℕ
  pub inode : ℕ
  pub name : String

pub record RequeueOutcome : Type 0 where
  pub requeued : List QueuePath
  pub skipped_existing_target : List QueuePath
  pub failed : List QueuePath

abbrev pub parked : String → QueuePath
parked n = record { dir = deferred; name = n }

abbrev pub pending : String → QueuePath
pending n = record { dir = orders; name = n }

-- item[:2] < other[:2]
unfoldable pub arrived_before : Dated → Dated → Bool
arrived_before a b = ltb a.mtime b.mtime || (eqb a.mtime b.mtime && ltb a.inode b.inode)

-- the file of a name, when it is an order's, eligible and still there
dated_one : (ℕ → ℕ) → String → Bool → Option String → Option ℕ → List Dated → List Dated
dated_one mtime n true (some i) (some inode) rest =
    record { mtime = mtime inode; inode = inode; name = n } ∷ rest
dated_one mtime n _ _ _ rest = rest

unfoldable pub dated : (QueuePath → Bool) → (ℕ → ℕ) → Files → List String → List Dated
unfolding dated_one order_stem
dated eligible mtime s [] = []
dated eligible mtime s (n ∷ ns) =
    dated_one mtime n (eligible (parked n)) (order_stem n) (target (lookup (parked n) s))
      (dated eligible mtime s ns)

abbrev pub with_requeued : QueuePath → RequeueOutcome → RequeueOutcome
with_requeued p o = record o { requeued = o.requeued ++ p ∷ [] }

abbrev pub with_skipped : QueuePath → RequeueOutcome → RequeueOutcome
with_skipped p o = record o { skipped_existing_target = o.skipped_existing_target ++ p ∷ [] }

abbrev pub with_failed : QueuePath → RequeueOutcome → RequeueOutcome
with_failed p o = record o { failed = o.failed ++ p ∷ [] }

module _ (os : Os) where
  requeue_one : Dated → RequeueOutcome → Io RequeueOutcome
  requeue_one d o = do
    there ← gets (exists (pending d.name))
    if there
        then pure (with_skipped (parked d.name) o)
        else catch (move_without_replace os (parked d.name) (pending d.name))
            (λ moved.
              if moved
              then pure (with_requeued (pending d.name) o)
              else pure (with_skipped (parked d.name) o))
            (λ e. if is_os_error e then pure (with_failed (parked d.name) o) else raise e)

  pub requeue_all : List Dated → RequeueOutcome → Io RequeueOutcome
  unfolding requeue_one
  requeue_all [] o = pure o
  requeue_all (d ∷ ds) o = do next ← requeue_one d o; requeue_all ds next

  unfoldable pub requeue_deferred_to_orders : (QueuePath → Bool) → (ℕ → ℕ) → Io RequeueOutcome
  unfolding requeue_all sorted arrived_before dated listing
  requeue_deferred_to_orders eligible mtime s =
      requeue_all (sorted arrived_before (dated eligible mtime s (listing deferred s)))
        (record { requeued = []; skipped_existing_target = []; failed = [] }) s
