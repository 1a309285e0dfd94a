-- ===== src/Queue/Results/Final.antt =====
-- What holds when a finalization returns.
use Prim.Native.String.{◌++◌ as append}
use chitra.Prelude.{
  codes, String, ◌≡◌, ◌≢◌, refl, sym, ap, ◌∙◌, Bool, true, false, Option, none, some, Result, ok,
  err, Bool-cases, Option-cases, inl, inr, if◌then◌else◌, is_some,
}
use chitra.Queue.{
  QueueSubdir, Kind, absent, directory, symlinked, other, deferred, results, QueuePath, Entry,
  QueueError, file_exists, Files, Os, pure, raise, caught, target, lookup, is_os_error, order_stem,
  unlink, unlink_at, make_directory, make_at, require_real_directory, require_safe_order_id,
  real_kind, order_id_codes,
}
use chitra.Queue.Entries.{lookup-remove_other}
use chitra.Queue.Names.{ends_apart, temporary_name, order_name, last_code, last_code-append}
use chitra.Queue.Results.{
  TerminalFinalization, apply, move_order, published_result, clear_nonce_path, clear_attempts,
  retry_state,
}
use chitra.Queue.Results.First.{create_once-IsOnce}
use chitra.Queue.Publish.{temporary}
use chitra.Queue.Results.Arrive.{
  Post, IsArrived, raised, post_bind, post_check, move_order-IsArrived,
}

-- later removals of other names
after_unlink :
    (os : Os) (o p q : QueuePath) (s t : Files)
    → o ≢ p
    → o ≢ q
    → IsArrived p q s t
    → IsArrived p q s (unlink os o t).1
unfolding unlink unlink_at
after_unlink os o p q s t a b h = elim (Bool-cases (os.unlink_fails o)) [
  | inl e ↦ rw e h
  | inr e ↦ elim (Option-cases (lookup o t)) [
    | inl k ↦ rw (e, k, unlink_at) h
    | inr (x, k) ↦
        rw (e, k, unlink_at)
          (record {
            gone = lookup-remove_other p o t (λ z. a (sym z)) ∙ h.gone;
            arrived = ap is_some (lookup-remove_other q o t (λ z. b (sym z))) ∙ h.arrived;
            same = λ x z. ap target (lookup-remove_other q o t (λ z. b (sym z))) ∙ h.same x z;
          })
  ]
]

after_suppress :
    (Q : Files → Type 0) (r : Result QueueError (Unit {0}) × Files)
    → Q r.1
    → Post Q (caught r pure (λ e. if is_os_error e then pure tt else raise e))
after_suppress Q (ok a, t) h = λ b k. h
after_suppress Q (err e, t) h = elim (Bool-cases (is_os_error e)) [
  | inl y ↦ rw y (λ b k. h)
  | inr n ↦ rw n (raised Q e t)
]

after_clear_attempts :
    (os : Os) (i : String) (Q : Files → Type 0) (s : Files)
    → Q s
    → Q (unlink os (retry_state i) s).1
    → Post Q (clear_attempts os i s)
unfolding clear_attempts require_safe_order_id require_real_directory
after_clear_attempts os i Q s h k =
    after_suppress Q _ (elim (Bool-cases (order_id_codes (codes i))) [
      | inr a ↦ rw a h
      | inl a ↦ elim (Bool-cases (real_kind (s.kind deferred))) [
        | inr b ↦ rw (a, b) h
        | inl b ↦ rw (a, b) k
      ]
    ])

stem_none : {i : String} → ◌≡◌ {A = Option String} none (some i) → ⊥
stem_none h = cc

not_order : {m n i : String} → order_stem m ≡ none → order_stem n ≡ some i → m ≢ n
not_order h k e = stem_none (sym h ∙ ap order_stem e ∙ k)

retry_other :
    (i : String) (p : QueuePath) {j : String} → order_stem p.name ≡ some j → retry_state i ≢ p
retry_other i p c =
    ends_apart (retry_state i) p 115 110 refl
      (last_code-append "." (append i ".lane-lock-attempts")
        (last_code-append i ".lane-lock-attempts" (unfold last_code in refl)))
      (order_name p.name c)

module _ (os : Os) (f : TerminalFinalization) (s : Files) where
  abbrev pub arrival : QueuePath
  arrival = record { dir = f.destination; name = f.claimed.name }

  abbrev Before : Files → Type 0
  Before t = (e : Entry) → lookup f.claimed s ≡ some e → lookup f.claimed t ≡ some e

  abbrev After : Files → Type 0
  After t = IsArrived f.claimed arrival s t

  Before-publish :
      {i : String} (o : Option String) (t : Files)
      → order_stem f.claimed.name ≡ some i
      → Before t
      → Post Before (published_result os f.order_id o t)
  unfolding published_result
  Before-publish none t c h = λ a k. h
  Before-publish (some payload) t c h = λ a k e z.
      (create_once-IsOnce os f.order_id payload t).keeps.kept f.claimed
        (ends_apart f.claimed (temporary results f.order_id ".json" os.random) 110 112 refl
          (order_name f.claimed.name c) (temporary_name results f.order_id ".json" os.random))
        (h e z)

  Before-directory :
      (d : QueueSubdir) (c : Kind) (t : Files) → Before t → Post Before (make_at d c t)
  unfolding make_at
  Before-directory d directory t h = λ a k. h
  Before-directory d absent t h = λ a k. h
  Before-directory d symlinked t h = raised Before file_exists t
  Before-directory d other t h = raised Before file_exists t

  After-move :
      (t : Files)
      → f.claimed ≢ arrival
      → f.suppress_move_errors ≡ false
      → Before t
      → Post After (move_order os f arrival t)
  After-move t n q h = λ a k.
      let m = move_order-IsArrived os f.claimed arrival t n f refl q a k in
      record { gone = m.gone; arrived = m.arrived; same = λ e z. m.same e (h e z) }

  After-nonce :
      {i : String} (o : Option QueuePath) (t : Files)
      → order_stem f.claimed.name ≡ some i
      → ((n : QueuePath) → o ≡ some n → order_stem n.name ≡ none)
      → After t
      → Post After (clear_nonce_path os o t)
  unfolding clear_nonce_path
  After-nonce none t c z h = λ a k. h
  After-nonce (some n) t c z h = after_suppress After (unlink os n t) (
      after_unlink os n f.claimed arrival s t (λ e. not_order (z n refl) c (ap (λ p. p.name) e))
        (λ e. not_order (z n refl) c (ap (λ p. p.name) e)) h)

  After-retry :
      {i : String} (b : Bool) (t : Files)
      → order_stem f.claimed.name ≡ some i
      → After t
      → Post After ((if b then clear_attempts os f.order_id else pure tt) t)
  After-retry false t c h = λ a k. h
  After-retry true t c h = after_clear_attempts os f.order_id After t h (
      after_unlink os (retry_state f.order_id) f.claimed arrival s t
        (retry_other f.order_id f.claimed c) (retry_other f.order_id arrival c) h)

  Before-retry :
      (b : Bool) → Post Before ((if b then require_real_directory deferred else pure tt) s)
  unfolding require_real_directory
  Before-retry false = λ a k e z. z
  Before-retry true = elim (Bool-cases (real_kind (s.kind deferred))) [
    | inl h ↦ rw h (λ a k e z. z)
    | inr h ↦ rw h (raised Before _ s)
  ]

  -- When a finalization that does not suppress its move's errors returns, for an order's file outside
  -- the destination and a nonce path that is no order's, that file is gone and the destination has a
  -- file of its name, the same one if it was there, whichever other calls failed.
  pub apply-IsArrived :
      {i : String}
      → order_stem f.claimed.name ≡ some i
      → f.claimed ≢ arrival
      → f.suppress_move_errors ≡ false
      → ((n : QueuePath) → f.nonce_path ≡ some n → order_stem n.name ≡ none)
      → (wrote : Bool) → (apply os f s).0 ≡ ok wrote
      → IsArrived f.claimed arrival s (apply os f s).1
  unfolding apply require_real_directory make_directory
  apply-IsArrived c n q z = post_check After (real_kind (s.kind results)) _ _ s (
      post_check After (real_kind (s.kind f.destination)) _ _ s (
        post_bind (λ t. Before t) After
          ((if f.retry_state then require_real_directory deferred else pure tt) s) _
          (Before-retry f.retry_state)
          (λ _ t h.
            post_bind Before After (published_result os f.order_id f.result_payload t) _
              (Before-publish f.result_payload t c h)
              (λ w u k.
                post_bind Before After (make_at f.destination (u.kind f.destination) u) _
                  (Before-directory f.destination (u.kind f.destination) u k)
                  (λ _ v l.
                    post_bind After After (move_order os f arrival v) _ (After-move v n q l)
                      (λ _ x m.
                        post_bind After After
                          ((if f.retry_state then clear_attempts os f.order_id else pure tt) x) _
                          (After-retry f.retry_state x c m)
                          (λ _ y o.
                            post_bind After After (clear_nonce_path os f.nonce_path y) _
                              (After-nonce f.nonce_path y c z o) (λ _ t r a e. r))))))))
