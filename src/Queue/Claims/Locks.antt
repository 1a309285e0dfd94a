-- ===== src/Queue/Claims/Locks.antt =====
-- The reservations of a queue as a table of exclusive locks.
use chitra.Prelude.{ℕ, String, List, ◌∷◌, In, select}
use chitra.Queue.Claims.Workers.{kept_by, not_of}

-- A step of a lock table: a free lock is taken, a lock is given back by its holder, a worker goes with
-- all its locks, or nothing happens.
pub data IsLockStep : List (ℕ × String) → List (ℕ × String) → Type 0 where
  acquire :
      {w : ℕ} {i : String} {holders : List (ℕ × String)}
      → ((v : ℕ) → In (v, i) holders → ⊥)
      → IsLockStep holders ((w, i) ∷ holders)
  give_up :
      {w : ℕ} {i : String} {holders : List (ℕ × String)}
      → In (w, i) holders
      → IsLockStep holders (select (kept_by w i) holders)
  vanish : (w : ℕ) {holders : List (ℕ × String)} → IsLockStep holders (select (not_of w) holders)
  idle : {holders : List (ℕ × String)} → IsLockStep holders holders
