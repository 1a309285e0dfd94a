-- ===== src/Prelude/Lines.antt =====
-- `bytes.splitlines(keepends=True)`, and the part of a file before an unfinished last line. A text
-- stands for its UTF-8 bytes: neither break is part of a longer character.
use Prim.Native.Char.{Char, code}
use Prim.Native.String.{String, ◌++◌ as append}
use mathlib.Core.Path.{◌≡◌, refl, sym, ap, ◌∙◌}
use mathlib.Core.Logic.{inl, inr}
use mathlib.Core.Bool.{Bool, true, false, not, ◌&&◌, ◌||◌}
use mathlib.Core.List.{List, [], ◌∷◌, ◌++◌, append-nil}
use native.Mathlib.Omega.{arith}
use text.Mathlib.TextLemmas.{nil-append, cons-append}
use chitra.Prelude.Tests.{if◌then◌else◌, eqb, Bool-cases, and-true}
use chitra.Prelude.Lists.{select, is_empty, select-append}

abbrev pub starts_lf : String → Bool
starts_lf String.[] = false
starts_lf (String.◌∷◌ c s) = eqb (code c) 10

-- the character ends its line, before the rest of the text
breaks : Char → String → Bool
breaks c s = eqb (code c) 10 || (eqb (code c) 13 && not (starts_lf s))

prepend : Char → List String → List String
prepend c [] = String.◌∷◌ c "" ∷ []
prepend c (w ∷ ws) = String.◌∷◌ c w ∷ ws

unfoldable pub keep_lines : String → List String
unfolding breaks prepend
keep_lines String.[] = []
keep_lines (String.◌∷◌ c s) =
    let rest = keep_lines s in if breaks c s then String.◌∷◌ c "" ∷ rest else prepend c rest

-- s.endswith(("\n", "\r"))
unfoldable pub ends_line : String → Bool
ends_line String.[] = false
ends_line (String.◌∷◌ c String.[]) = eqb (code c) 10 || eqb (code c) 13
ends_line (String.◌∷◌ c (String.◌∷◌ d s)) = ends_line (String.◌∷◌ d s)

-- s[: max(s.rfind("\n"), s.rfind("\r")) + 1]
kept : Char → String → String
kept c String.[] = if eqb (code c) 10 || eqb (code c) 13 then String.◌∷◌ c "" else ""
kept c (String.◌∷◌ d s) = String.◌∷◌ c (String.◌∷◌ d s)

unfoldable pub up_to_last_break : String → String
unfolding kept
up_to_last_break String.[] = ""
up_to_last_break (String.◌∷◌ c s) = kept c (up_to_last_break s)

-- the rest
after : Char → String → String → String → String
after c s String.[] t = if eqb (code c) 10 || eqb (code c) 13 then s else String.◌∷◌ c s
after c s (String.◌∷◌ d p) t = t

after_last_break : String → String
unfolding after
after_last_break String.[] = ""
after_last_break (String.◌∷◌ c s) = after c s (up_to_last_break s) (after_last_break s)

-- neither "\n" nor "\r" occurs
abbrev pub no_breaks : String → Bool
no_breaks String.[] = true
no_breaks (String.◌∷◌ c s) = not (eqb (code c) 10 || eqb (code c) 13) && no_breaks s

-- no text, or a text whose last line is finished
abbrev pub IsFinished : String → Type 0
IsFinished String.[] = Unit
IsFinished (String.◌∷◌ c s) = ends_line (String.◌∷◌ c s) ≡ true

-- the lines that are finished
abbrev pub finished : String → List String
finished s = select ends_line (keep_lines s)

split_step :
    (c : Char) (s p t : String)
    → append p t ≡ s
    → IsFinished p
    → no_breaks t ≡ true
    → (append (kept c p) (after c s p t) ≡ String.◌∷◌ c s)
      × IsFinished (kept c p)
      × (no_breaks (after c s p t) ≡ true)
unfolding kept after ends_line
split_step c s (String.◌∷◌ d p) t h k n =
    (cons-append c (String.◌∷◌ d p) t ∙ ap (String.◌∷◌ c) h, k, n)
split_step c s String.[] t h k n =
    let e : t ≡ s = sym (nil-append t) ∙ h in
    elim (Bool-cases (eqb (code c) 10 || eqb (code c) 13)) [
      | inl b ↦ rw b (cons-append c "" s ∙ ap (String.◌∷◌ c) (nil-append s), b, rw e at n)
      | inr b ↦ rw b (nil-append (String.◌∷◌ c s), tt, rw b (rw e at n))
    ]

split_at_last_break :
    (s : String)
    → (append (up_to_last_break s) (after_last_break s) ≡ s)
      × IsFinished (up_to_last_break s)
      × (no_breaks (after_last_break s) ≡ true)
unfolding up_to_last_break after_last_break
split_at_last_break String.[] = (nil-append "", tt, refl)
split_at_last_break (String.◌∷◌ c s) =
    let (e, k, n) = split_at_last_break s in
    split_step c s (up_to_last_break s) (after_last_break s) e k n

add_lines :
    (b : Bool) (c : Char) (xs ys : List String)
    → is_empty xs ≡ false
    → (if b then String.◌∷◌ c "" ∷ (xs ++ ys) else prepend c (xs ++ ys))
      ≡ (if b then String.◌∷◌ c "" ∷ xs else prepend c xs) ++ ys
unfolding prepend
add_lines true c xs ys h = refl
add_lines false c [] ys h = absurd cc
add_lines false c (x ∷ xs) ys h = refl

prepend_not_empty : (c : Char) (xs : List String) → is_empty (prepend c xs) ≡ false
unfolding prepend
prepend_not_empty c [] = refl
prepend_not_empty c (x ∷ xs) = refl

has_line : (c : Char) (s : String) → is_empty (keep_lines (String.◌∷◌ c s)) ≡ false
unfolding keep_lines
has_line c s = elim (Bool-cases (breaks c s)) [
  | inl b ↦ rw b refl
  | inr b ↦ rw b (prepend_not_empty c (keep_lines s))
]

unfold_line :
    (c : Char) (s : String)
    → keep_lines (String.◌∷◌ c s)
      ≡ (if breaks c s then String.◌∷◌ c "" ∷ keep_lines s else prepend c (keep_lines s))
unfolding keep_lines
unfold_line c s = refl

last_break :
    (c : Char) (t : String)
    → ends_line (String.◌∷◌ c "") ≡ true
    → starts_lf t ≡ false
    → keep_lines (String.◌∷◌ c t) ≡ keep_lines (String.◌∷◌ c "") ++ keep_lines t
unfolding keep_lines ends_line
last_break c t h n = ground arith

inner :
    (c d : Char) (s t : String)
    → keep_lines (String.◌∷◌ d (append s t)) ≡ keep_lines (String.◌∷◌ d s) ++ keep_lines t
    → keep_lines (String.◌∷◌ c (String.◌∷◌ d (append s t)))
      ≡ keep_lines (String.◌∷◌ c (String.◌∷◌ d s)) ++ keep_lines t
unfolding breaks
inner c d s t h =
    let step =
      add_lines (breaks c (String.◌∷◌ d s)) c (keep_lines (String.◌∷◌ d s)) (keep_lines t)
        (has_line d s) in
    unfold_line c (String.◌∷◌ d (append s t))
    ∙ ap (λ ls. if breaks c (String.◌∷◌ d s) then String.◌∷◌ c "" ∷ ls else prepend c ls) h
    ∙ step
    ∙ ap (λ ls. ls ++ keep_lines t) (sym (unfold_line c (String.◌∷◌ d s)))

-- Lines are read apart where one ends.
keep_lines-append :
    (s t : String)
    → IsFinished s
    → starts_lf t ≡ false
    → keep_lines (append s t) ≡ keep_lines s ++ keep_lines t
unfolding keep_lines ends_line
keep_lines-append String.[] t f n = rw (nil-append t) refl
keep_lines-append (String.◌∷◌ c String.[]) t f n =
    ap keep_lines (cons-append c "" t ∙ ap (String.◌∷◌ c) (nil-append t)) ∙ last_break c t f n
keep_lines-append (String.◌∷◌ c (String.◌∷◌ d s)) t f n =
    let ih = keep_lines-append (String.◌∷◌ d s) t f n in
    let e = cons-append c (String.◌∷◌ d s) t ∙ ap (String.◌∷◌ c) (cons-append d s t) in
    ap keep_lines e ∙ inner c d s t (ap keep_lines (sym (cons-append d s t)) ∙ ih)

whole_line :
    (c : Char) (t : String)
    → no_breaks (String.◌∷◌ c t) ≡ true
    → keep_lines (String.◌∷◌ c t) ≡ String.◌∷◌ c t ∷ []
unfolding keep_lines prepend breaks
whole_line c String.[] h = ground arith
whole_line c (String.◌∷◌ d t) h = unfold_line c (String.◌∷◌ d t) ∙ ground (arith, h, whole_line d t)

ends_line-no_breaks : (t : String) → no_breaks t ≡ true → ends_line t ≡ false
unfolding ends_line
ends_line-no_breaks String.[] h = refl
ends_line-no_breaks (String.◌∷◌ c String.[]) h = ground arith
ends_line-no_breaks (String.◌∷◌ c (String.◌∷◌ d t)) h =
    ends_line-no_breaks (String.◌∷◌ d t) (ground arith)

-- A text with no break is at most one line, and that one is not finished.
finished-no_breaks : (t : String) → no_breaks t ≡ true → finished t ≡ []
finished-no_breaks String.[] h = unfold keep_lines in refl
finished-no_breaks (String.◌∷◌ c t) h =
    rw (whole_line c t h, ends_line-no_breaks (String.◌∷◌ c t) h) refl

starts_lf-no_breaks : (t : String) → no_breaks t ≡ true → starts_lf t ≡ false
starts_lf-no_breaks String.[] h = refl
starts_lf-no_breaks (String.◌∷◌ c t) h = ground arith

-- a row and its newline
abbrev pub row_line : String → String
row_line row = append row "\n"

longer_line :
    (c : Char) (u : String)
    → (eqb (code c) 10 || eqb (code c) 13) ≡ false
    → keep_lines u ≡ u ∷ []
    → ends_line u ≡ true
    → (keep_lines (String.◌∷◌ c u) ≡ String.◌∷◌ c u ∷ []) × (ends_line (String.◌∷◌ c u) ≡ true)
unfolding ends_line breaks prepend
longer_line c String.[] n h e = absurd cc
longer_line c (String.◌∷◌ d u) n h e = (unfold_line c (String.◌∷◌ d u) ∙ ground (arith, h, n), e)

pub row_line_whole :
    (row : String)
    → no_breaks row ≡ true
    → (keep_lines (row_line row) ≡ row_line row ∷ []) × (ends_line (row_line row) ≡ true)
row_line_whole String.[] h =
    rw (nil-append "\n") (unfold keep_lines in refl, unfold ends_line in refl)
row_line_whole (String.◌∷◌ c t) h =
    let tests = and-true (not (eqb (code c) 10 || eqb (code c) 13)) (no_breaks t) h in
    let (k, e) = row_line_whole t tests.1 in
    rw (cons-append c t "\n") (longer_line c (row_line t) (ground (arith, tests.0)) k e)

-- What is finished stays so when an unfinished line follows.
pub finished-append :
    (s t : String) → IsFinished s → no_breaks t ≡ true → finished (append s t) ≡ finished s
finished-append s t f n =
    ap (select ends_line) (keep_lines-append s t f (starts_lf-no_breaks t n))
    ∙ select-append ends_line (keep_lines s) (keep_lines t)
    ∙ ap (λ ls. finished s ++ ls) (finished-no_breaks t n)
    ∙ append-nil (finished s)

-- A row that is appended to finished lines is one line more.
pub finished-row_line :
    (s row : String)
    → IsFinished s
    → no_breaks row ≡ true
    → starts_lf (row_line row) ≡ false
    → finished (append s (row_line row)) ≡ finished s ++ row_line row ∷ []
finished-row_line s row f n l =
    let (k, e) = row_line_whole row n in
    ap (select ends_line) (keep_lines-append s (row_line row) f l)
    ∙ select-append ends_line (keep_lines s) (keep_lines (row_line row))
    ∙ ap (λ ls. finished s ++ ls) (rw (k, e) refl)

-- Dropping the unfinished last line leaves the finished ones.
pub finished-up_to_last_break :
    (s : String) → (finished (up_to_last_break s) ≡ finished s) × IsFinished (up_to_last_break s)
finished-up_to_last_break s =
    let (e, f, n) = split_at_last_break s in
    (sym (finished-append (up_to_last_break s) (after_last_break s) f n) ∙ ap finished e, f)
