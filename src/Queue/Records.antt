-- ===== src/Queue/Records.antt =====
-- The remaining files of a queue: its directories, the nonce, the retry count, a result that is
-- rewritten, and where an order is. `write_json_atomic` is from src/chitra/_fsio.py.
pub mod Counts
use Prim.Native.String.{◌++◌ as append}
use chitra.Prelude.{
  ℕ, ◌+◌, String, Bool, true, false, not, ◌&&◌, ◌||◌, Option, none, some, List, [], ◌∷◌,
  if◌then◌else◌, ok, err, is_empty, is_some,
}
use chitra.Queue.{
  QueueSubdir, orders, in_flight, deferred, results, processed, invalid, QueuePath, os_error,
  QueueError, Files, Os, Io, pure, raise, gets, catch, ◌>>=◌, ◌>>◌, exists, read_text, target,
  lookup, write, unlink, rename, create, make_directory, require_real_directory,
  require_safe_order_id, require_real_file, subdir, result_file,
}
use chitra.Queue.Results.{validate_result, send_nonce, retry_state, attempts}

-- `QueueLayout.create`
pub create_layout : Io (Unit {0})
create_layout = do
  subdir orders
  subdir results
  subdir processed
  subdir in_flight
  subdir deferred
  make_directory orders
  make_directory results
  make_directory processed
  make_directory in_flight
  make_directory deferred

pub record QueueOrderArtifacts : Type 0 where
  pub order_id : String
  pub order_paths : List QueuePath
  pub result_path : Option QueuePath

-- `QueueOrderArtifacts.exists`
pub artifacts_exist : QueueOrderArtifacts → Bool
artifacts_exist a = not (is_empty a.order_paths) || is_some a.result_path

-- the paths of an order's name that hold a file
held_in : String → List QueueSubdir → Io (List QueuePath)
held_in i [] = pure []
held_in i (d ∷ ds) = do
  subdir d
  there ← gets (exists (record { dir = d; name = append i ".json" }))
  rest ← held_in i ds
  pure (if there then record { dir = d; name = append i ".json" } ∷ rest else rest)

pub locate_order : String → Io QueueOrderArtifacts
unfolding held_in
locate_order i = do
  require_safe_order_id i
  paths ← held_in i (orders ∷ in_flight ∷ deferred ∷ processed ∷ invalid ∷ [])
  subdir results
  require_real_file (result_file i)
  there ← gets (exists (result_file i))
  pure (record {
    order_id = i;
    order_paths = paths;
    result_path = if there then some (result_file i) else none;
  })

write_in_place : String → Option ℕ → Files → Files
write_in_place t none s = s
write_in_place t (some i) s = record s { text = write i t s.text }

module _ (os : Os) where
  -- path.write_text(text)
  pub write_text : QueuePath → String → Io (Unit {0})
  unfolding write_in_place
  write_text p t = do
    there ← gets (exists p)
    if there
        then (λ s.
            if os.create_fails p
            then (err os_error, s)
            else (ok tt, write_in_place t (target (lookup p s)) s))
        else create os p t

  -- `SendNonce.mint`, with the nonce that it draws
  pub mint : String → String → Io (Unit {0})
  mint i nonce = do
    require_real_directory in_flight
    require_real_file (send_nonce i)
    write_text (send_nonce i) nonce

  -- beside a path, ".{name}.{random}.tmp"
  abbrev pub beside : QueuePath → QueuePath
  beside p = record {
    dir = p.dir;
    name = append "." (append p.name (append "." (append os.random ".tmp")));
  }

  -- the removal of a temporary file that is left
  unfoldable pub on_error : QueuePath → Bool → QueueError → Io (Unit {0})
  on_error p cleanup_on_error e = do
    there ← gets (exists (beside p))
    (if cleanup_on_error && there then unlink os (beside p) else pure tt)
    raise e

  -- `write_json_atomic`, for the text of the object
  unfoldable pub write_json_atomic : QueuePath → String → Bool → Io (Unit {0})
  unfolding on_error
  write_json_atomic p t cleanup_on_error = do
    make_directory p.dir
    create os (beside p) t
    catch (rename os (beside p) p) pure (on_error p cleanup_on_error)

  -- `LaneLockRetryTracker.record_attempt`, for the reader and the writer of the count
  unfoldable pub record_attempt : (String → Option ℕ) → (ℕ → String) → String → Io ℕ
  record_attempt count dump i = do
    n ← attempts count i
    write_json_atomic (retry_state i) (dump (n + 1)) true
    pure (n + 1)

  -- `StoredResult.overwrite`
  pub overwrite : String → String → Io (Unit {0})
  overwrite i payload = do validate_result i; write_json_atomic (result_file i) payload false

-- `StoredResult.read_payload`, for the reader of an object
pub read_payload : {A : Type 0} → (String → Option A) → String → Io (Option A)
read_payload load i = do
  validate_result i
  text ← gets (read_text (result_file i))
  pure (elim text [ none ↦ none | some t ↦ load t ])
