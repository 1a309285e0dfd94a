-- ===== src/Prelude/Sort.antt =====
-- Python's `sorted(xs, key=…)`: a stable sort, here by insertion, for any strict weak order on keys.
use Prim.Native.Nat.{ℕ, ◌≤◌, ◌+◌}
use native.Mathlib.Nat.{le_trans}
use native.Mathlib.Omega.{arith}
use mathlib.Core.Path.{◌≡◌, refl}
use mathlib.Core.Bool.{Bool, true, false}
use mathlib.Core.List.{List, [], ◌∷◌, Perm}
use mathlib.Core.List.Perm
use chitra.Prelude.Tests.{if◌then◌else◌, Bool-cases}
use chitra.Prelude.Lists.{All, length}
use mathlib.Core.Logic.{inl, inr}

module _ {ℓ} {A : Type ℓ} (before : A → A → Bool) where
  insert_sorted : A → List A → List A
  insert_sorted x [] = x ∷ []
  insert_sorted x (y ∷ ys) = if before y x then y ∷ insert_sorted x ys else x ∷ y ∷ ys

  -- `before x y` is `key(x) < key(y)`
  unfoldable pub sorted : List A → List A
  unfolding insert_sorted
  sorted [] = []
  sorted (x ∷ xs) = insert_sorted x (sorted xs)

-- A rank does not go down along the list.
module _ {ℓ} {A : Type ℓ} (rank : A → ℕ) where
  abbrev pub IsRanked : List A → Type 0
  IsRanked [] = Unit
  IsRanked (x ∷ xs) = All (λ y. rank x ≤ rank y) xs × IsRanked xs

module _ {ℓ} {A : Type ℓ} (before : A → A → Bool) where
  insert_sorted-perm : (x : A) (xs : List A) → Perm (insert_sorted before x xs) (x ∷ xs)
  unfolding insert_sorted
  insert_sorted-perm x [] = Perm.refl (x ∷ [])
  insert_sorted-perm x (y ∷ ys) = elim (Bool-cases (before y x)) [
    | inl e ↦ rw e (Perm.trans (Perm.cons y (insert_sorted-perm x ys)) (Perm.swap x y ys))
    | inr e ↦ rw e (Perm.refl (x ∷ y ∷ ys))
  ]

  pub sorted-perm : (xs : List A) → Perm (sorted before xs) xs
  unfolding sorted
  sorted-perm [] = Perm.refl []
  sorted-perm (x ∷ xs) =
      Perm.trans (insert_sorted-perm x (sorted before xs)) (Perm.cons x (sorted-perm xs))

  module _ {κ} (P : A → Type κ) where
    All-insert : (x : A) (xs : List A) → P x → All P xs → All P (insert_sorted before x xs)
    unfolding insert_sorted
    All-insert x [] h k = (h, k)
    All-insert x (y ∷ ys) h k = elim (Bool-cases (before y x)) [
      | inl e ↦ rw e (k.0, All-insert x ys h k.1)
      | inr e ↦ rw e (h, k)
    ]

    pub All-sorted : (xs : List A) → All P xs → All P (sorted before xs)
    unfolding sorted
    All-sorted [] h = h
    All-sorted (x ∷ xs) h = All-insert x (sorted before xs) h.0 (All-sorted xs h.1)

  length-insert_sorted : (x : A) (xs : List A) → length (insert_sorted before x xs) ≡ length xs + 1
  unfolding insert_sorted
  length-insert_sorted x [] = omega arith
  length-insert_sorted x (y ∷ ys) = elim (Bool-cases (before y x)) [
    | inl e ↦ rw e (omega (arith, length-insert_sorted x ys))
    | inr e ↦ rw e (omega arith)
  ]

  pub length-sorted : (xs : List A) → length (sorted before xs) ≡ length xs
  unfolding sorted
  length-sorted [] = refl
  length-sorted (x ∷ xs) =
      omega (arith, length-insert_sorted x (sorted before xs), length-sorted xs)

  module _ (rank : A → ℕ) (le_of_before : (x y : A) → before x y ≡ true → rank x ≤ rank y)
      (le_of_not_before : (x y : A) → before y x ≡ false → rank x ≤ rank y) where
    All-insert_sorted :
        (z x : A) (xs : List A)
        → rank z ≤ rank x
        → All (λ y. rank z ≤ rank y) xs
        → All (λ y. rank z ≤ rank y) (insert_sorted before x xs)
    unfolding insert_sorted
    All-insert_sorted z x [] h k = (h, k)
    All-insert_sorted z x (y ∷ ys) h k = elim (Bool-cases (before y x)) [
      | inl e ↦ rw e (k.0, All-insert_sorted z x ys h k.1)
      | inr e ↦ rw e (h, k)
    ]

    weaken_All :
        (z x : A) (xs : List A)
        → rank z ≤ rank x
        → All (λ y. rank x ≤ rank y) xs
        → All (λ y. rank z ≤ rank y) xs
    weaken_All z x [] h k = k
    weaken_All z x (y ∷ ys) h k = (le_trans h k.0, weaken_All z x ys h k.1)

    insert_sorted-IsRanked :
        (x : A) (xs : List A) → IsRanked rank xs → IsRanked rank (insert_sorted before x xs)
    unfolding insert_sorted
    insert_sorted-IsRanked x [] h = (tt, tt)
    insert_sorted-IsRanked x (y ∷ ys) h = elim (Bool-cases (before y x)) [
      | inl e ↦
          rw e (All-insert_sorted y x ys (le_of_before y x e) h.0, insert_sorted-IsRanked x ys h.1)
      | inr e ↦ let le = le_of_not_before x y e in rw e ((le, weaken_All x y ys le h.0), h)
    ]

    -- A key that the order refines does not decrease along the sorted list.
    pub sorted-IsRanked : (xs : List A) → IsRanked rank (sorted before xs)
    unfolding sorted
    sorted-IsRanked [] = tt
    sorted-IsRanked (x ∷ xs) = insert_sorted-IsRanked x (sorted before xs) (sorted-IsRanked xs)
