-- ===== src/Queue/Results.antt =====
-- `StoredResult`, the control files of an order, and `TerminalFinalization`. A payload is the text
-- that `json.dump` writes for it, and reading one back is a parameter.
pub mod First
pub mod Arrive
pub mod Final
use Prim.Native.String.{◌++◌ as append}
use chitra.Prelude.{
  ℕ, ◌+◌, String, Bool, true, false, not, ◌&&◌, ◌||◌, Option, none, some, if◌then◌else◌, Result, ok,
  err, eqb,
}
use chitra.Queue.{
  QueueSubdir, in_flight, deferred, results, QueuePath, Entry, file, QueueError, value_error,
  file_exists, file_not_found, Files, Os, Io, pure, raise, gets, catch, ◌>>=◌, ◌>>◌, suppress,
  check, is_symlink, exists, read_text, target, lookup, unlink, create, make_directory,
  require_real_directory, require_safe_order_id, require_real_file, result_file, dotted, same_path,
  add, remove, is_directory,
}
use chitra.Queue.Publish.{temporary, publish}
use chitra.Queue.Moves.{is_file_exists, move_without_replace}

-- `StoredResult._validate_path`
pub validate_result : String → Io (Unit {0})
validate_result i = do
  require_safe_order_id i
  require_real_directory results
  require_real_file (result_file i)

-- `StoredResult.exists`
pub result_exists : String → Io Bool
unfolding validate_result
result_exists i = do validate_result i; gets (exists (result_file i))

-- `StoredResult.create_once`
unfoldable pub create_once : Os → String → String → Io Bool
unfolding validate_result
create_once os i payload = do
  validate_result i
  make_directory results
  catch (publish os (temporary results i ".json" os.random) (result_file i) payload)
      (λ _. pure true) (λ e. if is_file_exists e then pure false else raise e)

-- `SendNonce.exists` and `SendNonce.clear`
abbrev pub send_nonce : String → QueuePath
send_nonce i = dotted in_flight i ".nonce"

pub nonce_exists : String → Io Bool
nonce_exists i = do
  require_real_directory in_flight
  require_real_file (send_nonce i)
  gets (exists (send_nonce i))

pub clear_nonce : Os → String → Io (Unit {0})
clear_nonce os i = do
  require_real_directory in_flight
  require_real_file (send_nonce i)
  suppress (unlink os (send_nonce i))

-- `LaneLockRetryTracker`: the count as `json.loads` and its checks read it, none when they fail
abbrev pub retry_state : String → QueuePath
retry_state i = dotted deferred i ".lane-lock-attempts"

unfoldable pub attempts : (String → Option ℕ) → String → Io ℕ
attempts count i = do
  require_safe_order_id i
  require_real_directory deferred
  text ← gets (read_text (retry_state i))
  pure (elim text [ none ↦ 0 | some t ↦ elim (count t) [ none ↦ 0 | some n ↦ n ] ])

pub clear_attempts : Os → String → Io (Unit {0})
clear_attempts os i =
    suppress
      (do require_safe_order_id i; require_real_directory deferred; unlink os (retry_state i))

pub record TerminalFinalization : Type 0 where
  pub claimed : QueuePath
  pub order_id : String
  pub destination : QueueSubdir
  pub result_payload : Option String
  pub retry_state : Bool
  pub nonce_path : Option QueuePath
  pub suppress_move_errors : Bool

same_file : Option ℕ → Option ℕ → Bool
same_file (some i) (some j) = eqb i j
same_file _ _ = false

abbrev is_not_found : QueueError → Bool
is_not_found file_not_found = true
is_not_found _ = false

abbrev is_value_error : QueueError → Bool
is_value_error (value_error m) = true
is_value_error _ = false

module _ (os : Os) where
  published_result : String → Option String → Io Bool
  unfolding create_once
  published_result i none = pure false
  published_result i (some payload) = create_once os i payload

  -- a half-complete move of an earlier pass, or a different file at the destination
  after_refusal : QueuePath → QueuePath → Bool → Io (Unit {0})
  unfolding same_file
  after_refusal p q true = pure tt
  after_refusal p q false = do
    s ← gets (λ s. s)
    if exists p s && exists q s && same_file (target (lookup p s)) (target (lookup q s))
        then unlink os p
        else if exists p s
        then raise file_exists
        else pure tt

  -- the move and its except clauses
  pub move_order : TerminalFinalization → QueuePath → Io (Unit {0})
  unfolding after_refusal
  move_order f q =
      catch (move_without_replace os f.claimed q >>= after_refusal f.claimed q) pure (λ e.
        if is_not_found e
        then (do there ← gets (exists q); check there e)
        else if not (is_value_error e) && f.suppress_move_errors
        then pure tt
        else raise e)

  clear_nonce_path : Option QueuePath → Io (Unit {0})
  clear_nonce_path none = pure tt
  clear_nonce_path (some p) = suppress (unlink os p)

  -- `TerminalFinalization.apply`
  unfoldable pub apply : TerminalFinalization → Io Bool
  unfolding published_result move_order clear_nonce_path clear_attempts
  apply f = do
    require_real_directory results
    require_real_directory f.destination
    (if f.retry_state then require_real_directory deferred else pure tt)
    wrote_result ← published_result f.order_id f.result_payload
    make_directory f.destination
    move_order f (record { dir = f.destination; name = f.claimed.name })
    (if f.retry_state then clear_attempts os f.order_id else pure tt)
    clear_nonce_path f.nonce_path
    pure wrote_result
