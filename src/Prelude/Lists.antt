-- ===== src/Prelude/Lists.antt =====
-- Lists: Python's comprehensions, `any`, `all`, `next(...)` and membership as recursive functions.
use Prim.Native.Nat.{ℕ, suc, ◌+◌}
use native.Mathlib.Omega.{arith}
use mathlib.Core.Path.{◌≡◌, refl, sym, ◌∙◌, subst}
use mathlib.Core.Logic.{◌⊎◌, inl, inr}
use mathlib.Core.Bool.{Bool, true, false, ◌&&◌, ◌||◌}
use mathlib.Core.Option.{Option, none, some}
use mathlib.Core.List.{List, [], ◌∷◌, ◌++◌, reverse, reverse-append, reverse-cons}
use chitra.Prelude.Tests.{if◌then◌else◌, Bool-cases, Option-cases}

module _ {ℓ} {A : Type ℓ} where
  abbrev pub length : List A → ℕ
  length [] = 0
  length (x ∷ xs) = suc (length xs)

  abbrev pub is_empty : List A → Bool
  is_empty [] = true
  is_empty (x ∷ xs) = false

  -- any(p(x) for x in xs)
  abbrev pub any : (A → Bool) → List A → Bool
  any p [] = false
  any p (x ∷ xs) = p x || any p xs

  -- all(p(x) for x in xs)
  abbrev pub all : (A → Bool) → List A → Bool
  all p [] = true
  all p (x ∷ xs) = p x && all p xs

  -- [x for x in xs if p(x)]
  abbrev pub select : (A → Bool) → List A → List A
  select p [] = []
  select p (x ∷ xs) = if p x then x ∷ select p xs else select p xs

  -- next((x for x in xs if p(x)), None)
  abbrev pub find : (A → Bool) → List A → Option A
  find p [] = none
  find p (x ∷ xs) = if p x then some x else find p xs

  -- the first value that `f` gives, for a loop that returns from within
  abbrev pub find_map {κ} : {B : Type κ} → (A → Option B) → List A → Option B
  find_map f [] = none
  find_map f (x ∷ xs) = elim (f x) [ none ↦ find_map f xs | some b ↦ some b ]

  -- The elements of a list satisfy a predicate.
  abbrev pub All {κ} : (A → Type κ) → List A → Type κ
  All P [] = Unit
  All P (x ∷ xs) = P x × All P xs

  -- An element stands in a list.
  pub data In (a : A) : List A → Type ℓ where
    here : {xs : List A} → In a (a ∷ xs)
    there : {x : A} {xs : List A} → In a xs → In a (x ∷ xs)

module _ {ℓ κ} {A : Type ℓ} (P : A → Type κ) where
  pub All-append : (xs ys : List A) → All P xs → All P ys → All P (xs ++ ys)
  All-append [] ys h k = k
  All-append (x ∷ xs) ys h k = (h.0, All-append xs ys h.1 k)

  pub All-select : (p : A → Bool) (xs : List A) → All P xs → All P (select p xs)
  All-select p [] h = h
  All-select p (x ∷ xs) h = elim (Bool-cases (p x)) [
    | inl e ↦ rw e (h.0, All-select p xs h.1)
    | inr e ↦ rw e (All-select p xs h.1)
  ]

  pub All-In : {a : A} {xs : List A} → All P xs → In a xs → P a
  All-In h here = h.0
  All-In h (there i) = All-In h.1 i

module _ {ℓ} {A : Type ℓ} where
  pub find-some : (p : A → Bool) (xs : List A) {a : A} → find p xs ≡ some a → p a ≡ true
  find-some p [] h = cc
  find-some p (x ∷ xs) h = elim (Bool-cases (p x)) [
    | inl e ↦ let q : some x ≡ some _ = rw e at h in cc (e, q)
    | inr e ↦ find-some p xs (rw e at h)
  ]

  find_map-none {κ} :
      {B : Type κ} (f : A → Option B) (x : A) (xs : List A)
      → f x ≡ none
      → find_map f (x ∷ xs) ≡ find_map f xs
  find_map-none f x xs h = rw (h, find_map)

  find_map-head {κ} :
      {B : Type κ} (f : A → Option B) (x : A) (xs : List A) (c : B)
      → f x ≡ some c
      → find_map f (x ∷ xs) ≡ some c
  find_map-head f x xs c h = rw (h, find_map)

  pub In-append : {a : A} {xs : List A} (ys : List A) → In a xs → In a (xs ++ ys)
  In-append ys here = here
  In-append ys (there i) = there (In-append ys i)

  pub In-last : (xs : List A) (a : A) → In a (xs ++ a ∷ [])
  In-last [] a = here
  In-last (x ∷ xs) a = there (In-last xs a)

  pub In-append-or : {a : A} (xs : List A) {ys : List A} → In a (xs ++ ys) → In a xs ⊎ In a ys
  In-append-or [] i = inr i
  In-append-or (x ∷ xs) here = inl here
  In-append-or (x ∷ xs) (there i) = elim (In-append-or xs i) [
    | inl j ↦ inl (there j)
    | inr j ↦ inr j
  ]

  pub In-one : {a b : A} → In a (b ∷ []) → a ≡ b
  In-one here = refl
  In-one (there i) = elim i [ ]

  In-reverse : {a : A} (xs : List A) → In a (reverse xs) → In a xs
  In-reverse [] i = i
  In-reverse (x ∷ xs) i = elim (In-append-or (reverse xs) (subst (In _) (reverse-cons x xs) i)) [
    | inl j ↦ there (In-reverse xs j)
    | inr j ↦ subst (λ z. In z (x ∷ xs)) (sym (In-one j)) here
  ]

  find_map-of {κ} :
      {B : Type κ} (f : A → Option B) (xs : List A) {b : B}
      → find_map f xs ≡ some b
      → (x : A) × In x xs × (f x ≡ some b)
  find_map-of f [] e = cc
  find_map-of f (x ∷ xs) {b} e = elim (Option-cases (f x)) [
    | inl n ↦ let (y, i, h) = find_map-of f xs (rw (← find_map-none f x xs n) e) in (y, there i, h)
    | inr (c, y) ↦ (x, here, y ∙ sym (find_map-head f x xs c y) ∙ e)
  ]

  -- the element that gave the value found from the end
  pub find_map-reverse-In {κ} :
      {B : Type κ} (f : A → Option B) (xs : List A) {b : B}
      → find_map f (reverse xs) ≡ some b
      → (x : A) × In x xs × (f x ≡ some b)
  find_map-reverse-In f xs e =
      let (x, i, h) = find_map-of f (reverse xs) e in (x, In-reverse xs i, h)

  pub find_map-reverse-append {κ} :
      {B : Type κ} (f : A → Option B) (xs : List A) (x : A)
      → find_map f (reverse (xs ++ x ∷ []))
        ≡ elim (f x) [ none ↦ find_map f (reverse xs) | some b ↦ some b ]
  find_map-reverse-append f xs x = rw reverse-append

  -- what holds of every value that `f` gives holds of the one found
  pub find_map_sound {κ μ} :
      {B : Type κ} (P : B → Type μ) (f : A → Option B) (xs : List A) {b : B}
      → ((x : A) (c : B) → f x ≡ some c → P c)
      → find_map f xs ≡ some b
      → P b
  find_map_sound P f [] h e = cc
  find_map_sound P f (x ∷ xs) {b} h e = elim (Option-cases (f x)) [
    | inl n ↦ find_map_sound P f xs h (rw (← find_map-none f x xs n) e)
    | inr (c, y) ↦ h x b (y ∙ sym (find_map-head f x xs c y) ∙ e)
  ]

  pub length-append : (xs ys : List A) → length (xs ++ ys) ≡ length xs + length ys
  length-append [] ys = omega arith
  length-append (x ∷ xs) ys = omega (arith, length-append xs ys)

-- Some element of a list satisfies a predicate.
module _ {ℓ} {A : Type ℓ} where
  abbrev pub Any : (A → Type 0) → List A → Type 0
  Any P [] = ⊥
  Any P (x ∷ xs) = P x ⊎ Any P xs

  pub any-Any :
      (P : A → Type 0) (p : A → Bool) (xs : List A)
      → ((x : A) → p x ≡ true → P x)
      → any p xs ≡ true
      → Any P xs
  any-Any P p [] h e = absurd cc
  any-Any P p (x ∷ xs) h e = elim (Bool-cases (p x)) [
    | inl y ↦ inl (h x y)
    | inr n ↦ inr (any-Any P p xs h (rw (n, any) at e))
  ]

  pub Any-any :
      (P : A → Type 0) (p : A → Bool) (xs : List A)
      → ((x : A) → P x → p x ≡ true)
      → Any P xs
      → any p xs ≡ true
  Any-any P p [] h k = absurd k
  Any-any P p (x ∷ xs) h (inl y) = rw (h x y)
  Any-any P p (x ∷ xs) h (inr i) = ground (arith, Any-any P p xs h i)

  pub any-All :
      (P : A → Type 0) (p : A → Bool) (xs : List A)
      → ((x : A) → p x ≡ false → P x)
      → any p xs ≡ false
      → All P xs
  any-All P p [] h e = tt
  any-All P p (x ∷ xs) h e = elim (Bool-cases (p x)) [
    | inl y ↦ absurd cc
    | inr n ↦ (h x n, any-All P p xs h (rw (n, any) at e))
  ]

  pub All-any :
      (P : A → Type 0) (p : A → Bool) (xs : List A)
      → ((x : A) → P x → p x ≡ false)
      → All P xs
      → any p xs ≡ false
  All-any P p [] h k = refl
  All-any P p (x ∷ xs) h k = rw (h x k.0, All-any P p xs h k.1)

module _ {ℓ} {A : Type ℓ} (q : A → Bool) where
  pub any-select : (r : A → Bool) (xs : List A) → any q (select r xs) ≡ any (λ x. r x && q x) xs
  any-select r [] = refl
  any-select r (x ∷ xs) = elim (Bool-cases (r x)) [
    | inl e ↦ rw (e, any-select r xs)
    | inr e ↦ rw (e, any-select r xs)
  ]

  pub find-none : (xs : List A) → find q xs ≡ none → any q xs ≡ false
  find-none [] h = refl
  find-none (x ∷ xs) h = ground (arith, find-none xs)

  pub find-any : (xs : List A) {a : A} → find q xs ≡ some a → any q xs ≡ true
  find-any [] h = cc
  find-any (x ∷ xs) {a = a} h = ground (arith, find-any xs {a = a})

  pub any-or : (r : A → Bool) (xs : List A) → any (λ x. r x || q x) xs ≡ (any r xs || any q xs)
  any-or r [] = refl
  any-or r (x ∷ xs) = ground (arith, any-or r xs)

module _ {ℓ} {A : Type ℓ} (p : A → Bool) where
  pub select-append : (xs ys : List A) → select p (xs ++ ys) ≡ select p xs ++ select p ys
  select-append [] ys = refl
  select-append (x ∷ xs) ys = elim (Bool-cases (p x)) [
    | inl e ↦ rw (e, select-append xs ys)
    | inr e ↦ rw (e, select-append xs ys)
  ]
