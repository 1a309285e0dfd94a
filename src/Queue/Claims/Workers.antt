-- ===== src/Queue/Claims/Workers.antt =====
-- Workers that reserve, claim, release, die and sweep in any order, each operation as one step: two
-- of them never hold the reservation of one order.
use Prim.Native.String.{◌++◌ as append}
use text.Mathlib.TextLemmas.{append_cancel_left, append_cancel_right}
use chitra.Prelude.{
  ℕ, String, ◌==◌, eq_refl, ◌≡◌, ◌≢◌, refl, sym, ap, subst, ◌∙◌, Bool, true, false, not, ◌&&◌,
  Option, some, List, [], ◌∷◌, ok, Bool-cases, inl, inr, arith, ltb, eqb, select, All, In, All-In,
  strip,
}
use chitra.Queue.{
  orders, in_flight, QueuePath, Files, Os, ℤ, pos, lookup, order_stem, owner_marker, text_of,
}
use chitra.Queue.Once.{HasText, HasText-IsKept}
use chitra.Queue.Publish.{temporary}
use chitra.Queue.Names.{not_marker, order_name, IsMarker-owner_marker}
use chitra.Queue.Moves.{move_without_replace, move_without_replace-IsSafeMove}
use chitra.Queue.Claims.{
  ClaimReservation, reserve_claim, claim, release, reclaim_stale_claims, pid_alive, read_owner_pid,
  owner_pid,
}
use chitra.Queue.Claims.Markers.{still, claim_keeps, rename_keeps, unlink_keeps, one_text}
use chitra.Queue.Claims.Reclaim.{reclaim_stale_claims-IsUntouched}
use chitra.Queue.Claims.Exclusion.{reserve_claim-IsOnce, temporary_other}

pub record System : Type 0 where
  pub files : Files
  -- the processes to which `os.kill(pid, 0)` succeeds: those that live and are run by the one user that
  -- runs all the workers (for the process of another user the call raises, as for a dead one)
  pub signalable : ℕ → Bool
  -- the workers that were given a reservation and have not released it
  pub holders : List (ℕ × String)

abbrev pub kept_by : ℕ → String → ℕ × String → Bool
kept_by w i h = not (eqb h.0 w && h.1 == i)

abbrev pub not_of : ℕ → ℕ × String → Bool
not_of w h = not (eqb h.0 w)

pos_inj : {i j : ℕ} → ◌≡◌ {A = Option ℤ} (some (pos i)) (some (pos j)) → i ≡ j
pos_inj h = cc

kept_not : true ≡ false → ⊥
kept_not h = cc

kept_self : (w : ℕ) (i : String) → kept_by w i (w, i) ≡ false
kept_self w i = rw (eq_refl i) (ground arith)

module _ (str_of : ℕ → String) (int_of : String → Option ℤ) where
  -- the operating system at a step: any failures, and the processes that `os.kill(pid, 0)` reaches
  abbrev pub host : Os → (ℕ → Bool) → Os
  host os signalable = record os { can_signal = signalable; str_of = str_of; int_of = int_of }

  pub data Step : System → System → Type 0 where
    reserved :
        (os : Os) {s : System} {w : ℕ} {i : String} {c : ClaimReservation}
        → s.signalable w ≡ true
        → ltb 0 w ≡ true
        → (reserve_claim (host os s.signalable) w i s.files).0 ≡ ok (some c)
        → Step s (record s {
          files = (reserve_claim (host os s.signalable) w i s.files).1;
          holders = (w, i) ∷ s.holders;
        })
    refused :
        (os : Os) {s : System} (w : ℕ) (i : String)
        → Step s (record s { files = (reserve_claim (host os s.signalable) w i s.files).1 })
    claimed :
        (os : Os) {s : System} (n : String) {i : String}
        → order_stem n ≡ some i
        → Step s (record s {
          files = (claim (host os s.signalable) (record { dir = orders; name = n }) s.files).1;
        })
    moved :
        (os : Os) {s : System} (p q : QueuePath) {i j : String}
        → order_stem p.name ≡ some i
        → order_stem q.name ≡ some j
        → Step s (record s { files = (move_without_replace (host os s.signalable) p q s.files).1 })
    released :
        (os : Os) {s : System} (w : ℕ) (i : String)
        → In (w, i) s.holders
        → Step s (record s {
          files = (release (host os s.signalable) (record { order_id = i }) s.files).1;
          holders = select (kept_by w i) s.holders;
        })
    swept :
        (os : Os) {s : System}
        → Step s (record s { files = (reclaim_stale_claims (host os s.signalable) s.files).1 })
    died :
        {s : System} (w : ℕ)
        → Step s (record s {
          signalable = λ n. s.signalable n && not (eqb n w);
          holders = select (not_of w) s.holders;
        })

  pub data IsReachable : System → Type 0 where
    start :
        (files : Files) (signalable : ℕ → Bool)
        → IsReachable (record { files = files; signalable = signalable; holders = [] })
    then_step : {s t : System} → IsReachable s → Step s t → IsReachable t

  record IsHeld (s : System) (h : ℕ × String) : Type 0 where
    signalable : s.signalable h.0 ≡ true
    positive : ltb 0 h.0 ≡ true
    marker : HasText (owner_marker h.1) (str_of h.0) s.files

  -- what a step does to the files, as seen from a holder
  carry :
      (s : System) (f : Files) (h : ℕ × String)
      → IsHeld s h
      → (HasText (owner_marker h.1) (str_of h.0) s.files
          → HasText (owner_marker h.1) (str_of h.0) f)
      → IsHeld (record s { files = f }) h
  carry s f h k g = record { signalable = k.signalable; positive = k.positive; marker = g k.marker }

  All-carry :
      (s t : System) (hs : List (ℕ × String))
      → ((h : ℕ × String) → IsHeld s h → IsHeld t h)
      → All (IsHeld s) hs
      → All (IsHeld t) hs
  All-carry s t [] f a = tt
  All-carry s t (h ∷ hs) f a = (f h a.0, All-carry s t hs f a.1)

  owned :
      (os : Os) (s : System) (h : ℕ × String)
      → ((n : ℕ) → int_of (strip (str_of n)) ≡ some (pos n))
      → IsHeld s h
      → pid_alive
          (host os s.signalable)
          (read_owner_pid (host os s.signalable) (owner_marker h.1) s.files)
        ≡ true
  unfolding pid_alive owner_pid text_of
  owned os s h law k = rw (k.marker.found, k.marker.text, law h.0, k.positive, k.signalable) refl

  All-select_with :
      (s : System) (p : ℕ × String → Bool) (hs : List (ℕ × String))
      → All (IsHeld s) hs
      → All (λ h. IsHeld s h × (p h ≡ true)) (select p hs)
  All-select_with s p [] a = tt
  All-select_with s p (h ∷ hs) a = elim (Bool-cases (p h)) [
    | inl e ↦ rw e ((a.0, e), All-select_with s p hs a.1)
    | inr e ↦ rw e (All-select_with s p hs a.1)
  ]

  All-carry_with :
      (s t : System) (p : ℕ × String → Bool) (hs : List (ℕ × String))
      → ((h : ℕ × String) → IsHeld s h × (p h ≡ true) → IsHeld t h)
      → All (λ h. IsHeld s h × (p h ≡ true)) hs
      → All (IsHeld t) hs
  All-carry_with s t p [] f a = tt
  All-carry_with s t p (h ∷ hs) f a = (f h a.0, All-carry_with s t p hs f a.1)

  module _ (law : (n : ℕ) → int_of (strip (str_of n)) ≡ some (pos n)) where
    -- two processes do not write the same text
    str_inj : (v w : ℕ) → str_of v ≡ str_of w → v ≡ w
    str_inj v w e = pos_inj (sym (law v) ∙ ap (λ t. int_of (strip t)) e ∙ law w)

    untouched :
        (s : System) (os : Os) (h : ℕ × String) (f : Files)
        → IsHeld s h
        → lookup (owner_marker h.1) f ≡ lookup (owner_marker h.1) s.files
        → f.text ≡ s.files.text
        → f.next ≡ s.files.next
        → IsHeld (record s { files = f }) h
    untouched s os h f k a b c =
        carry s f h k (still (owner_marker h.1) (str_of h.0) f s.files b c a)

    tried :
        (s : System) (os : Os) (w : ℕ) (i : String) (h : ℕ × String)
        → IsHeld s h
        → IsHeld (record s { files = (reserve_claim (host os s.signalable) w i s.files).1 }) h
    tried s os w i h k =
        let f = (reserve_claim (host os s.signalable) w i s.files).1 in
        carry s f h k (λ m.
          HasText-IsKept (owner_marker h.1) (temporary in_flight i ".owner" os.random) (str_of h.0)
            s.files f (temporary_other os.random i h.1) m
            (reserve_claim-IsOnce (host os s.signalable) w i s.files).keeps)

    -- the holder of a released reservation is the only one
    released_other :
        (s : System) (w : ℕ) (i : String) (h : ℕ × String)
        → IsHeld s (w, i)
        → IsHeld s h
        → kept_by w i h ≡ true
        → owner_marker h.1 ≢ owner_marker i
    released_other s w i h mine k e m =
        let same : h.1 ≡ i =
          append_cancel_right h.1 i ".owner" (
            append_cancel_left "." (append h.1 ".owner") (append i ".owner")
              (ap (λ p. p.name) m)) in
        let who : h.0 ≡ w = str_inj h.0 w (
          one_text (owner_marker i) (str_of h.0) (str_of w) s.files
            (subst (λ p. HasText p (str_of h.0) s.files) m k.marker) mine.marker) in
        kept_not
          (sym e ∙ ap (kept_by w i) {x = h} {y = (w, i)} (λ j. (who j, same j)) ∙ kept_self w i)

    preserved : (s t : System) → Step s t → All (IsHeld s) s.holders → All (IsHeld t) t.holders
    preserved s t (reserved os {w = w} {i = i} {c = c} signalable positive told) held = (
      record {
        signalable = signalable;
        positive = positive;
        marker =
            ((reserve_claim-IsOnce (host os s.signalable) w i s.files).made (some c) told refl).1;
      },
      All-carry s _ s.holders
          (λ h k. record {
            signalable = k.signalable;
            positive = k.positive;
            marker = (tried s os w i h k).marker;
          })
          held,
    )
    preserved s t (refused os w i) held = All-carry s _ s.holders (tried s os w i) held
    preserved s t (claimed os n e) held =
        All-carry s _ s.holders
          (λ h k.
            let m = owner_marker h.1 in
            let p : QueuePath = record { dir = orders; name = n } in
            let q : QueuePath = record { dir = in_flight; name = n } in
            carry s _ h k (λ x.
              claim_keeps (host os s.signalable) n s.files (HasText m (str_of h.0)) x (
                rename_keeps (host os s.signalable) p q m (str_of h.0) s.files
                  (not_marker m p (IsMarker-owner_marker h.1) (order_name n e))
                  (not_marker m q (IsMarker-owner_marker h.1) (order_name n e)) x)))
          held
    preserved s t (moved os p q e g) held =
        All-carry s _ s.holders
          (λ h k.
            let m = owner_marker h.1 in
            let safe = move_without_replace-IsSafeMove (host os s.signalable) p q s.files in
            untouched s os h _ k
              (safe.others m (not_marker m p (IsMarker-owner_marker h.1) (order_name p.name e))
                (not_marker m q (IsMarker-owner_marker h.1) (order_name q.name g)))
              safe.text safe.next)
          held
    preserved s t (released os w i e) held =
        let o = host os s.signalable in
        All-carry_with s _ (kept_by w i) (select (kept_by w i) s.holders)
          (λ h k. record {
            signalable = k.0.signalable;
            positive = k.0.positive;
            marker =
                unfold release in
                unlink_keeps o (owner_marker i) (owner_marker h.1) (str_of h.0) s.files
                  (released_other s w i h (All-In (IsHeld s) held e) k.0 k.1) k.0.marker;
          })
          (All-select_with s (kept_by w i) s.holders held)
    preserved s t (swept os) held =
        All-carry s _ s.holders
          (λ h k.
            let m = owner_marker h.1 in
            let same = reclaim_stale_claims-IsUntouched (host os s.signalable) s.files in
            untouched s os h _ k (same.marker m (IsMarker-owner_marker h.1) (owned os s h law k))
              same.text same.next)
          held
    preserved s t (died w) held =
        All-carry_with s _ (not_of w) (select (not_of w) s.holders)
          (λ h k. record {
            signalable = rw (k.0.signalable, k.1) refl;
            positive = k.0.positive;
            marker = k.0.marker;
          })
          (All-select_with s (not_of w) s.holders held)

    reachable_held : (s : System) → IsReachable s → All (IsHeld s) s.holders
    reachable_held s (start f signalable) = tt
    reachable_held s (then_step {s = r} h step) = preserved r s step (reachable_held r h)

    -- A worker that holds a reservation can be signalled and its marker names it.
    pub reservation_marked :
        (s : System) (w : ℕ) (i : String)
        → IsReachable s
        → In (w, i) s.holders
        → (s.signalable w ≡ true) × HasText (owner_marker i) (str_of w) s.files
    reservation_marked s w i r a =
        let held = All-In (IsHeld s) (reachable_held s r) a in (held.signalable, held.marker)
