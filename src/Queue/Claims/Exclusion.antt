-- ===== src/Queue/Claims/Exclusion.antt =====
-- A reservation is exclusive.
use chitra.Prelude.{ℕ, String, ◌≢◌, refl, sym, not, none, some, is_some, codes}
use chitra.Queue.{
  in_flight, QueuePath, Files, Os, owner_marker, require_safe_order_id, require_real_directory,
  require_real_file, order_id_codes, real_kind, is_symlink,
}
use chitra.Queue.Once.{IsOnce, IsOnce-check, IsOnce-directory, once}
use chitra.Queue.Publish.{temporary}
use chitra.Queue.Names.{ends_apart, temporary_name, IsMarker-owner_marker}
use chitra.Queue.Claims.{reserve_claim}

-- no marker is a temporary file
pub temporary_other : (random i j : String) → owner_marker j ≢ temporary in_flight i ".owner" random
temporary_other random i j =
    ends_apart (owner_marker j) (temporary in_flight i ".owner" random) 114 112 refl
      (IsMarker-owner_marker j) (temporary_name in_flight i ".owner" random)

temporary_apart : (random i : String) → temporary in_flight i ".owner" random ≢ owner_marker i
temporary_apart random i e = temporary_other random i i (sym e)

module _ (os : Os) (pid : ℕ) (i : String) where
  abbrev marker_temporary : QueuePath
  marker_temporary = temporary in_flight i ".owner" os.random

  -- A reservation is returned only when the marker was absent and now names the process.
  pub reserve_claim-IsOnce :
      (s : Files)
      → IsOnce is_some marker_temporary
          (owner_marker i)
          (os.str_of pid)
          s
          (reserve_claim os pid i s)
  unfolding reserve_claim require_safe_order_id require_real_directory require_real_file
  reserve_claim-IsOnce s = IsOnce-check _ _ _ _ (order_id_codes (codes i)) _ _ s (
      IsOnce-check _ _ _ _ (real_kind (s.kind in_flight)) _ _ s (
        IsOnce-directory _ _ _ _ in_flight _ s (λ f.
          IsOnce-check _ _ _ _ (not (is_symlink (owner_marker i) s)) _ _ (record s { kind = f })
            (once _ _ _ _ os (some (record { order_id = i })) none refl
              (temporary_apart os.random i) (record s { kind = f })))))
