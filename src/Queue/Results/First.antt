-- ===== src/Queue/Results/First.antt =====
-- The first result that is published for an order stands.
use chitra.Prelude.{
  String, ◌≡◌, ◌≢◌, refl, sym, ◌∙◌, Bool, true, false, Option, none, some, List, [], ◌∷◌,
  Bool-cases, inl, inr, ok, codes,
}
use chitra.Queue.{
  results, QueuePath, Entry, Files, Os, lookup, result_file, order_id_codes, real_kind, is_symlink,
  Io, ◌>>◌, require_safe_order_id, require_real_directory, require_real_file,
}
use chitra.Queue.Once.{IsOnce, IsOnce-raised, IsOnce-directory, once, HasText, HasText-IsKept}
use chitra.Queue.Publish.{temporary}
use chitra.Queue.Names.{ends_apart, temporary_name, last_code, last_code-append}
use chitra.Queue.Results.{create_once, validate_result}

-- no result is a temporary file
temporary_other : (random i j : String) → result_file j ≢ temporary results i ".json" random
temporary_other random i j =
    ends_apart (result_file j) (temporary results i ".json" random) 110 112 refl
      (last_code-append j ".json" (unfold last_code in refl))
      (temporary_name results i ".json" random)

module _ (os : Os) (i payload : String) where
  abbrev pub says : Bool → Bool
  says b = b

  abbrev pub tmp : QueuePath
  tmp = temporary results i ".json" os.random

  after_validation :
      (k : Io Bool) (s : Files)
      → IsOnce says tmp (result_file i) payload s (k s)
      → IsOnce says tmp (result_file i) payload s ((validate_result i >> k) s)
  unfolding validate_result require_safe_order_id require_real_directory require_real_file
  after_validation k s h = elim (Bool-cases (order_id_codes (codes i))) [
    | inr a ↦ rw a (IsOnce-raised says tmp (result_file i) payload _ s)
    | inl a ↦ elim (Bool-cases (real_kind (s.kind results))) [
      | inr b ↦ rw (a, b) (IsOnce-raised says tmp (result_file i) payload _ s)
      | inl b ↦ elim (Bool-cases (is_symlink (result_file i) s)) [
        | inl c ↦ rw (a, b, c) (IsOnce-raised says tmp (result_file i) payload _ s)
        | inr c ↦ rw (a, b, c) h
      ]
    ]
  ]

  pub create_once-IsOnce :
      (s : Files) → IsOnce says tmp (result_file i) payload s (create_once os i payload s)
  unfolding create_once
  create_once-IsOnce s = after_validation _ s (
      IsOnce-directory says tmp (result_file i) payload results _ s (λ f.
        once says tmp (result_file i) payload os true false refl
          (λ e. temporary_other os.random i i (sym e)) (record s { kind = f })))

-- one attempt to publish: by which process, for which order, and what
pub record Attempt : Type 0 where
  pub os : Os
  pub order_id : String
  pub payload : String

unfoldable pub after : List Attempt → Files → Files
after [] s = s
after (a ∷ later) s = after later (create_once a.os a.order_id a.payload s).1

HasText-after :
    (i t : String) (later : List Attempt) (s : Files)
    → HasText (result_file i) t s
    → HasText (result_file i) t (after later s)
unfolding after
HasText-after i t [] s h = h
HasText-after i t (a ∷ later) s h =
    HasText-after i t later (create_once a.os a.order_id a.payload s).1 (
      HasText-IsKept (result_file i) (temporary results a.order_id ".json" a.os.random) t s
        (create_once a.os a.order_id a.payload s).1 (temporary_other a.os.random a.order_id i) h
        (create_once-IsOnce a.os a.order_id a.payload s).keeps)

not_free : {e : Entry} → ◌≡◌ {A = Option Entry} none (some e) → ⊥
not_free h = cc

-- When an attempt reports that it published, its order had no result, and after any further attempts,
-- for any orders and with any failures, the result is still what it wrote, and no attempt for that
-- order reports that it published.
pub first_result_stands :
    (first : Attempt) (later : List Attempt) (s : Files)
    → (create_once first.os first.order_id first.payload s).0 ≡ ok true
    → (lookup (result_file first.order_id) s ≡ none)
      × HasText
          (result_file first.order_id)
          first.payload
          (after later (create_once first.os first.order_id first.payload s).1)
      × ((os : Os) (payload : String)
          → (create_once os first.order_id payload
              (after later (create_once first.os first.order_id first.payload s).1)).0
            ≢ ok true)
first_result_stands first later s h =
    let (free, text) =
      (create_once-IsOnce first.os first.order_id first.payload s).made true h refl in
    let t = after later (create_once first.os first.order_id first.payload s).1 in
    let stands = HasText-after first.order_id first.payload later _ text in
    (
      free,
      stands,
      λ os payload e. not_free (
          sym ((create_once-IsOnce os first.order_id payload t).made true e refl).0 ∙ stands.found),
    )
