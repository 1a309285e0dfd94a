-- ===== src/IncidentStore/Receipts.antt =====
-- A checkpoint receipt seals at most once, whatever the order in which sealers come.
use chitra.Prelude.{
  ℕ, ◌+◌, String, ◌≡◌, ◌≢◌, refl, sym, ap, subst, eq_iff, true, false, List, [], ◌∷◌, ◌++◌, Result,
  ok, err, arith, All, All-append, any, length, truthy, length-append, ◌⊎◌, inl, inr, In, here,
  there, map, Option, none, some, Bool, Bool-cases, ◌≤◌, if◌then◌else◌,
}
use chitra.Digest.{Digest}
use chitra.Incident.{IncidentRecord, v2}
use chitra.IncidentStore.{
  Store, StoreError, value_error, is_used, check_receipt, spend, usable, load_consumed_checkpoints,
  consume_receipt_and_seal,
}

-- The receipts of a log are all different, reference from reference and nonce from nonce.
abbrev pub AllDistinct : List (String × String) → Type 0
AllDistinct [] = Unit
AllDistinct (x ∷ xs) = All (λ y. (x.0 ≢ y.0) × (x.1 ≢ y.1)) xs × AllDistinct xs

abbrev pub IsNamed : String × String → Type 0
IsNamed x = (truthy x.0 ≡ true) × (truthy x.1 ≡ true)

-- one attempt to seal: the record, the receipt's reference and its nonce, and whether the process dies
-- between the two appends
pub record Attempt : Type 0 where
  pub incident : IncidentRecord
  pub ref : String
  pub nonce : String
  pub dies : Bool

-- the log of receipts, read in full
abbrev pub whole_log : Store → Option (List (Option (String × String)))
whole_log s = some (map some s.consumed)

module _ (D : Digest) where
  usable-map : (xs : List (String × String)) → usable D (map some xs) ≡ xs
  unfolding usable
  usable-map [] = refl
  usable-map (x ∷ xs) = ap (λ l. x ∷ l) (usable-map xs)

  outcome : Store → Result StoreError (IncidentRecord × Store) → Store
  outcome s (ok (r, s')) = s'
  outcome s (err e) = s

  died : Attempt → Store → Result StoreError (Unit {0}) → Store
  died a s (ok u) = spend D a.ref a.nonce s
  died a s (err e) = s

  -- what an attempt leaves: one that raises changes nothing, one that dies has spent the receipt
  attempted : Attempt → Store → Store
  unfolding outcome died
  attempted a s =
      if a.dies
      then died a s
          (check_receipt D a.incident a.ref a.nonce (load_consumed_checkpoints D (whole_log s)) s)
      else outcome s (consume_receipt_and_seal D a.incident a.ref a.nonce (whole_log s) s)

  -- attempts in the order in which the lock of one lane admits them: each reads the log of receipts that
  -- the one before has left
  pub seal_all : List Attempt → Store → Store
  unfolding attempted
  seal_all [] s = s
  seal_all (a ∷ rest) s = seal_all rest (attempted a s)

  not_used :
      (ref nonce : String) (log : List (String × String))
      → any (is_used D ref nonce) log ≡ false
      → All IsNamed log
      → All (λ x. (x.0 ≢ ref) × (x.1 ≢ nonce)) log
  unfolding is_used
  not_used ref nonce [] h k = tt
  not_used ref nonce ((r, n) ∷ log) h k = (
    (ground (arith, eq_iff r ref, k.0), ground (arith, eq_iff n nonce, k.0)),
    not_used ref nonce log (ground arith) k.1,
  )

  snoc-AllDistinct :
      (log : List (String × String)) (x : String × String)
      → AllDistinct log
      → All (λ y. (y.0 ≢ x.0) × (y.1 ≢ x.1)) log
      → AllDistinct (log ++ x ∷ [])
  snoc-AllDistinct [] x h k = (tt, tt)
  snoc-AllDistinct (y ∷ log) x h k = (
    All-append (λ z. (y.0 ≢ z.0) × (y.1 ≢ z.1)) log (x ∷ []) h.0 (k.0, tt),
    snoc-AllDistinct log x h.1 k.1,
  )

  check-fresh :
      (r : IncidentRecord) (ref nonce : String) (seen : List (String × String)) (s : Store)
      → check_receipt D r ref nonce seen s ≡ ok tt
      → any (is_used D ref nonce) seen ≡ false
  unfolding check_receipt
  check-fresh r ref nonce seen s h = ground arith

  loaded : (s : Store) → load_consumed_checkpoints D (whole_log s) ≡ s.consumed
  unfolding load_consumed_checkpoints
  loaded s = usable-map s.consumed

  -- what an attempt that passes the checks leaves
  record IsSpent (a : Attempt) (s s' : Store) : Type 0 where
    fresh : any (is_used D a.ref a.nonce) s.consumed ≡ false
    receipts : s'.consumed ≡ s.consumed ++ (a.ref, a.nonce) ∷ []
    rows : length s'.rows ≤ length s.rows + 1

  seal-IsSpent :
      (a : Attempt) (s s' : Store) (r : IncidentRecord)
      → consume_receipt_and_seal D a.incident a.ref a.nonce (whole_log s) s ≡ ok (r, s')
      → IsSpent a s s'
  unfolding consume_receipt_and_seal check_receipt
  seal-IsSpent a s s' r h = ground (arith, loaded s, length-append s.rows (v2 a.incident ∷ []))

  -- The receipts consumed, and at most one sealed row for each of them.
  pub record IsSound (rows receipts : ℕ) (s : Store) : Type 0 where
    pub named : All IsNamed s.consumed
    pub distinct : AllDistinct s.consumed
    pub at_most_one_each : length s.rows + receipts ≤ rows + length s.consumed

  spent-IsSound :
      (n m : ℕ) (a : Attempt) (s s' : Store)
      → IsSpent a s s'
      → IsNamed (a.ref, a.nonce)
      → IsSound n m s
      → IsSound n m s'
  spent-IsSound n m a s s' sp k g = record {
    named =
        subst (All IsNamed) (sym sp.receipts)
          (All-append IsNamed s.consumed ((a.ref, a.nonce) ∷ []) g.named (k, tt));
    distinct = subst AllDistinct (sym sp.receipts) (
        snoc-AllDistinct s.consumed (a.ref, a.nonce) g.distinct
          (not_used a.ref a.nonce s.consumed sp.fresh g.named));
    at_most_one_each = omega (
      arith,
      g.at_most_one_each,
      sp.rows,
      ap length sp.receipts,
      length-append s.consumed ((a.ref, a.nonce) ∷ []),
    );
  }

  outcome-IsSound :
      (n m : ℕ) (a : Attempt) (s : Store) (x : Result StoreError (IncidentRecord × Store))
      → consume_receipt_and_seal D a.incident a.ref a.nonce (whole_log s) s ≡ x
      → IsNamed (a.ref, a.nonce)
      → IsSound n m s
      → IsSound n m (outcome s x)
  unfolding outcome
  outcome-IsSound n m a s (err e) h k g = g
  outcome-IsSound n m a s (ok (r, s')) h k g =
      spent-IsSound n m a s s' (seal-IsSpent a s s' r h) k g

  died-IsSound :
      (n m : ℕ) (a : Attempt) (s : Store) (x : Result StoreError (Unit {0}))
      → check_receipt D a.incident a.ref a.nonce (load_consumed_checkpoints D (whole_log s)) s ≡ x
      → IsNamed (a.ref, a.nonce)
      → IsSound n m s
      → IsSound n m (died a s x)
  unfolding died
  died-IsSound n m a s (err e) h k g = g
  died-IsSound n m a s (ok tt) h k g =
      spent-IsSound n m a s (spend D a.ref a.nonce s)
        (record {
          fresh =
              subst (λ l. any (is_used D a.ref a.nonce) l ≡ false) (loaded s)
                (check-fresh a.incident a.ref a.nonce (load_consumed_checkpoints D (whole_log s)) s
                  h);
          receipts = refl;
          rows = omega arith;
        })
        k g

  attempted-IsSound :
      (n m : ℕ) (a : Attempt) (s : Store)
      → IsNamed (a.ref, a.nonce)
      → IsSound n m s
      → IsSound n m (attempted a s)
  unfolding attempted
  attempted-IsSound n m a s k g = elim (Bool-cases a.dies) [
    | inl e ↦ rw e (
        died-IsSound n m a s
          (check_receipt D a.incident a.ref a.nonce (load_consumed_checkpoints D (whole_log s)) s)
          refl k g)
    | inr e ↦ rw e (
        outcome-IsSound n m a s
          (consume_receipt_and_seal D a.incident a.ref a.nonce (whole_log s) s) refl k g)
  ]

  -- Any sequence of attempts of one lane under its lock, with named receipts, a log that is read in full
  -- and writes that are whole, while no other lane seals, leaves a log in which no reference and no nonce
  -- stands twice and at most one row for each receipt consumed, also when a process dies between the two
  -- appends.
  pub seal_all-IsSound :
      (n m : ℕ) (attempts : List Attempt) (s : Store)
      → All (λ (a : Attempt). IsNamed (a.ref, a.nonce)) attempts
      → IsSound n m s
      → IsSound n m (seal_all attempts s)
  unfolding seal_all
  seal_all-IsSound n m [] s h g = g
  seal_all-IsSound n m (a ∷ rest) s h g =
      seal_all-IsSound n m rest (attempted a s) h.1 (attempted-IsSound n m a s h.0 g)

  used_again :
      (ref nonce ref' nonce' : String) (lines : List (Option (String × String)))
      → is_used D ref' nonce' (ref, nonce) ≡ true
      → In (some (ref, nonce)) lines
      → any (is_used D ref' nonce') (usable D lines) ≡ true
  unfolding usable
  used_again ref nonce ref' nonce' [] h i = elim i [ ]
  used_again ref nonce ref' nonce' (some x ∷ lines) h here = rw h refl
  used_again ref nonce ref' nonce' (none ∷ lines) h (there i) =
      used_again ref nonce ref' nonce' lines h i
  used_again ref nonce ref' nonce' (some x ∷ lines) h (there i) =
      ground (arith, used_again ref nonce ref' nonce' lines h i)

  spent :
      (ref nonce ref' nonce' : String)
      → truthy ref ≡ true
      → truthy nonce ≡ true
      → (ref' ≡ ref) ⊎ (nonce' ≡ nonce)
      → is_used D ref' nonce' (ref, nonce) ≡ true
  unfolding is_used
  spent ref nonce ref' nonce' h k (inl e) = ground (arith, eq_iff ref ref', sym e)
  spent ref nonce ref' nonce' h k (inr e) = ground (arith, eq_iff nonce nonce', sym e)

  -- Once a receipt's line stands in the log that a seal reads, whether or not its row was appended (a
  -- crash may part the two), and whatever other lines the log has, every seal with its reference (and
  -- any nonce) or with its nonce (and any reference), of any record, is refused: the seal fails closed.
  pub crash_fails_closed :
      (ref nonce : String) (lines : List (Option (String × String))) (s : Store)
      (r : IncidentRecord) (ref' nonce' : String)
      → truthy ref ≡ true
      → truthy nonce ≡ true
      → In (some (ref, nonce)) lines
      → (ref' ≡ ref) ⊎ (nonce' ≡ nonce)
      → consume_receipt_and_seal D r ref' nonce' (some lines) s
        ≡ err (value_error "checkpoint receipt was already consumed; a receipt seals exactly once")
  unfolding consume_receipt_and_seal check_receipt load_consumed_checkpoints
  crash_fails_closed ref nonce lines s r ref' nonce' h k i e =
      rw (used_again ref nonce ref' nonce' lines (spent ref nonce ref' nonce' h k e) i) refl
