-- ===== src/CompletionAudit/Picks.antt =====
-- Lists of what fails a test, and the Boolean tests of the audit.
use chitra.Prelude.{
  String, Bool, true, false, not, ◌&&◌, ◌||◌, some, List, [], ◌∷◌, ◌++◌, map, any, select, All, Any,
  any-Any, Any-any, any-All, All-any, is_empty, refl, ◌≡◌, ◌↔◌, arith, option_eq,
}
use chitra.CompletionGate.{
  kind_eq, EvidenceKind, artifact, deploy, live_verify, merged_pr, failure, CompletionEvidence,
}
use chitra.CompletionGate.Receipts.{option_eq-some, empty-any}

pub kind_eq-true : (k l : EvidenceKind) → kind_eq k l ≡ true → l ≡ k
unfolding kind_eq
kind_eq-true artifact artifact h = refl
kind_eq-true deploy deploy h = refl
kind_eq-true live_verify live_verify h = refl
kind_eq-true merged_pr merged_pr h = refl
kind_eq-true failure failure h = refl
kind_eq-true k l h = absurd cc

pub kind_eq_refl : (k l : EvidenceKind) → l ≡ k → kind_eq k l ≡ true
unfolding kind_eq
kind_eq_refl artifact l h = rw h refl
kind_eq_refl deploy l h = rw h refl
kind_eq_refl live_verify l h = rw h refl
kind_eq_refl merged_pr l h = rw h refl
kind_eq_refl failure l h = rw h refl

pub empty-map : {A B : Type 0} (f : A → B) (xs : List A) → is_empty (map f xs) ≡ is_empty xs
empty-map f [] = refl
empty-map f (x ∷ xs) = refl

-- no element is picked if and only if every element satisfies the predicate
pub none_picked :
    {A B : Type 0} (f : A → B) (p : A → Bool) (P : A → Type 0) (xs : List A)
    → ((x : A) → (p x ≡ false) ↔ P x)
    → (is_empty (map f (select p xs)) ≡ true) ↔ All P xs
none_picked f p P xs h =
    rw (empty-map f (select p xs), empty-any p xs)
      (
        λ e. any-All P p xs (λ x k. (h x).0 k) (ground (arith, e)),
        λ e. rw (All-any P p xs (λ x k. (h x).1 k) e) refl,
      )

pub not-false : (b : Bool) → (not b ≡ false) ↔ (b ≡ true)
not-false true = (λ h. refl, λ h. refl)
not-false false = (λ h. absurd cc, λ h. absurd cc)

pub not-true : (b : Bool) → (not b ≡ true) ↔ (b ≡ false)
not-true true = (λ h. absurd cc, λ h. absurd cc)
not-true false = (λ h. refl, λ h. refl)

pub empty-append : (xs ys : List String) → is_empty (xs ++ ys) ≡ (is_empty xs && is_empty ys)
empty-append [] ys = refl
empty-append (x ∷ xs) ys = refl

pub some_named :
    (s : String) (es : List CompletionEvidence)
    → (not (any (λ e. option_eq e.todo_item (some s)) es) ≡ false)
      ↔ Any (λ e. e.todo_item ≡ some s) es
some_named s es = (
  λ h.
      any-Any (λ e. e.todo_item ≡ some s) (λ e. option_eq e.todo_item (some s)) es
        (λ e. (option_eq-some e.todo_item s).0)
        ((not-false (any (λ e. option_eq e.todo_item (some s)) es)).0 h),
  λ h.
      rw
        (Any-any (λ e. e.todo_item ≡ some s) (λ e. option_eq e.todo_item (some s)) es
          (λ e. (option_eq-some e.todo_item s).1) h)
        refl,
)

pub three :
    (a b c : Bool) → ((not a || not b || not c) ≡ false) ↔ ((a ≡ true) × (b ≡ true) × (c ≡ true))
three true true c = (λ h. (refl, refl, (not-false c).0 h), λ h. (not-false c).1 h.2)
three true false c = (λ h. absurd cc, λ h. absurd cc)
three false b c = (λ h. absurd cc, λ h. absurd cc)

pub six :
    (a b c d e f : Bool)
    → ((a && (b && (c && (d && (e && f))))) ≡ true)
      ↔ ((a ≡ true) × (b ≡ true) × (c ≡ true) × (d ≡ true) × (e ≡ true) × (f ≡ true))
six a b c d e f = (
  λ h. (
    ground (arith, h),
    ground (arith, h),
    ground (arith, h),
    ground (arith, h),
    ground (arith, h),
    ground (arith, h),
  ),
  λ h. rw (h.0, h.1, h.2, h.3, h.4, h.5) refl,
)
