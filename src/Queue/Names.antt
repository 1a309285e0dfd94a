-- ===== src/Queue/Names.antt =====
-- The names of orders and of owner markers differ, by their last letters.
use Prim.Native.Char.{Char, code}
use Prim.Native.String.{◌++◌ as append}
use text.Mathlib.TextLemmas.{nil-append, cons-append}
use chitra.Prelude.{
  ℕ, String, ◌==◌, eq_iff, ◌≡◌, ◌≢◌, refl, sym, ap, ◌∙◌, Bool, true, false, Option, none, some,
  drop_prefix, eqb, Bool-cases, Option-cases, inl, inr, arith,
}
use chitra.Queue.Publish.{temporary}
use chitra.Queue.{
  QueueSubdir, QueuePath, drop_suffix, order_stem, owner_marker, marked_order, owned_part,
}

unfoldable pub last_code : String → Option ℕ
last_code String.[] = none
last_code (String.◌∷◌ c s) = elim (last_code s) [ none ↦ some (code c) | some n ↦ some n ]

last_code_cons :
    (c : Char) (s : String) {n : ℕ} → last_code s ≡ some n → last_code (String.◌∷◌ c s) ≡ some n
unfolding last_code
last_code_cons c s h = rw h refl

pub last_code-append :
    (s t : String) {n : ℕ} → last_code t ≡ some n → last_code (append s t) ≡ some n
last_code-append String.[] t h = ap last_code (nil-append t) ∙ h
last_code-append (String.◌∷◌ c s) t h =
    ap last_code (cons-append c s t) ∙ last_code_cons c (append s t) (last_code-append s t h)

some_inj : {x y : String} → ◌≡◌ {A = Option String} (some x) (some y) → x ≡ y
some_inj h = cc

none-some : {x : String} → ◌≡◌ {A = Option String} none (some x) → ⊥
none-some h = cc

last_code-drop_suffix :
    (e s : String) {t : String} {n : ℕ}
    → drop_suffix e s ≡ some t
    → last_code e ≡ some n
    → last_code s ≡ some n
unfolding drop_suffix
last_code-drop_suffix e String.[] h k = elim (Bool-cases ("" == e)) [
  | inl y ↦ ap last_code ((eq_iff "" e).0 y) ∙ k
  | inr y ↦ absurd cc
]
last_code-drop_suffix e (String.◌∷◌ c s) {t} {n} h k = elim (Bool-cases (String.◌∷◌ c s == e)) [
  | inl y ↦ ap last_code ((eq_iff (String.◌∷◌ c s) e).0 y) ∙ k
  | inr y ↦ elim (Option-cases (drop_suffix e s)) [
    | inl z ↦ absurd (none-some (rw (y, z) at h))
    | inr (u, z) ↦ last_code_cons c s (last_code-drop_suffix e s z k)
  ]
]

abbrev pub IsMarker : String → Type 0
IsMarker n = last_code n ≡ some 114

pub IsMarker-owner_marker : (i : String) → IsMarker (owner_marker i).name
IsMarker-owner_marker i =
    last_code-append "." (append i ".owner")
      (last_code-append i ".owner" (unfold last_code in refl))

pub order_name : (n : String) {i : String} → order_stem n ≡ some i → last_code n ≡ some 110
unfolding order_stem
order_name n h = last_code-drop_suffix ".json" n h (unfold last_code in refl)

abbrev ends : ℕ → Option ℕ → Bool
ends a none = false
ends a (some n) = eqb n a

differ : true ≡ false → ⊥
differ h = cc

ends_same : (a : ℕ) → ends a (some a) ≡ true
ends_same a = ground arith

-- Paths whose names end differently differ.
pub ends_apart :
    (m p : QueuePath) (a b : ℕ)
    → eqb b a ≡ false
    → last_code m.name ≡ some a
    → last_code p.name ≡ some b
    → m ≢ p
ends_apart m p a b n h k e =
    differ (sym (ends_same a) ∙ ap (ends a) (sym h ∙ ap (λ r. last_code r.name) e ∙ k) ∙ n)

-- An order's path is not a marker's.
pub not_marker : (m p : QueuePath) → IsMarker m.name → last_code p.name ≡ some 110 → m ≢ p
not_marker m p h k = ends_apart m p 114 110 refl h k

pub temporary_name :
    (d : QueueSubdir) (i ending random : String)
    → last_code (temporary d i ending random).name ≡ some 112
temporary_name d i ending random =
    last_code-append "." (append i (append ending (append "." (append random ".tmp")))) (
      last_code-append i (append ending (append "." (append random ".tmp"))) (
        last_code-append ending (append "." (append random ".tmp")) (
          last_code-append "." (append random ".tmp")
            (last_code-append random ".tmp" (unfold last_code in refl)))))

last_code-drop_prefix :
    (p s : String) {t : String} {n : ℕ}
    → drop_prefix p s ≡ some t
    → last_code t ≡ some n
    → last_code s ≡ some n
unfolding drop_prefix
last_code-drop_prefix String.[] s h k = ap last_code (some_inj h) ∙ k
last_code-drop_prefix (String.◌∷◌ c p) String.[] h k = absurd (none-some h)
last_code-drop_prefix (String.◌∷◌ c p) (String.◌∷◌ d s) h k =
    elim (Bool-cases (eqb (code c) (code d))) [
      | inl e ↦ last_code_cons d s (last_code-drop_prefix p s (rw e at h) k)
      | inr e ↦ absurd (none-some (rw e at h))
    ]

owned_part-some :
    (o : Option String) {i : String}
    → owned_part o ≡ some i
    → (t : String) × (o ≡ some t) × (drop_suffix ".owner" t ≡ some i)
unfolding owned_part
owned_part-some none h = absurd (none-some h)
owned_part-some (some t) h = (t, refl, h)

-- what ".*.owner" matches is a marker's name
pub marked_name : (n : String) {i : String} → marked_order n ≡ some i → IsMarker n
unfolding marked_order
marked_name n h =
    let (t, e, k) = owned_part-some (drop_prefix "." n) h in
    last_code-drop_prefix "." n e (last_code-drop_suffix ".owner" t k (unfold last_code in refl))
