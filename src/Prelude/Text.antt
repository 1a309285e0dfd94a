-- ===== src/Prelude/Text.antt =====
-- Python's `str`: the tests that the source makes on texts.
use Prim.Native.Nat.{ℕ}
use Prim.Native.Char.{Char, code}
use Prim.Native.String.{String, ◌++◌ as append}
use mathlib.Core.Bool.{Bool, true, false, not, ◌&&◌, ◌||◌}
use mathlib.Core.Option.{Option, none, some}
use mathlib.Core.List.{List, [], ◌∷◌}
use text.Mathlib.Text.{◌==◌, find?}
use mathlib.Core.Path.{◌≡◌, refl}
use mathlib.Core.Logic.{inl, inr}
use chitra.Prelude.Tests.{is_some, if◌then◌else◌, leb, eqb, Bool-cases}

-- The code points of a text.
abbrev pub codes : String → List ℕ
codes String.[] = []
codes (String.◌∷◌ c s) = code c ∷ codes s

-- bool(s)
abbrev pub truthy : String → Bool
truthy s = not (s == "")

-- s.isascii()
abbrev pub is_ascii : String → Bool
is_ascii String.[] = true
is_ascii (String.◌∷◌ c s) = leb (code c) 127 && is_ascii s

-- s in (…)
abbrev pub one_of : String → List String → Bool
one_of s [] = false
one_of s (t ∷ ts) = s == t || one_of s ts

-- c.isspace(), for the characters that `str.strip` removes
unfoldable pub is_space : ℕ → Bool
is_space c =
    (leb 9 c && leb c 13)
    || (leb 28 c && leb c 32)
    || eqb c 0x85
    || eqb c 0xA0
    || eqb c 0x1680
    || (leb 0x2000 c && leb c 0x200A)
    || eqb c 0x2028
    || eqb c 0x2029
    || eqb c 0x202F
    || eqb c 0x205F
    || eqb c 0x3000

left_strip : String → String
left_strip String.[] = ""
left_strip (String.◌∷◌ c s) = if is_space (code c) then left_strip s else String.◌∷◌ c s

right_strip : String → String
right_strip String.[] = ""
right_strip (String.◌∷◌ c s) =
    let rest = right_strip s in if is_space (code c) && rest == "" then "" else String.◌∷◌ c rest

-- s.strip()
unfoldable pub strip : String → String
unfolding is_space left_strip right_strip
strip s = right_strip (left_strip s)

-- [A-Za-z0-9]
abbrev pub is_alnum : ℕ → Bool
is_alnum c = (leb 48 c && leb c 57) || (leb 65 c && leb c 90) || (leb 97 c && leb c 122)

-- [A-Za-z0-9_.-]
abbrev pub is_name_char : ℕ → Bool
is_name_char c = is_alnum c || eqb c 95 || eqb c 46 || eqb c 45

prepend : Char → List String → List String
prepend c [] = String.◌∷◌ c "" ∷ []
prepend c (w ∷ ws) = String.◌∷◌ c w ∷ ws

-- s.split(sep), for a separator of one character
unfoldable pub split : ℕ → String → List String
unfolding prepend
split sep String.[] = "" ∷ []
split sep (String.◌∷◌ c s) =
    let rest = split sep s in if eqb (code c) sep then "" ∷ rest else prepend c rest

-- sep.join(words)
unfoldable pub join : String → List String → String
join sep [] = ""
join sep (w ∷ []) = w
join sep (w ∷ v ∷ rest) = append w (append sep (join sep (v ∷ rest)))

-- part in whole
abbrev pub contains : String → String → Bool
contains part whole = is_some (find? whole part)

-- equality of `str | None`
abbrev pub option_eq : Option String → Option String → Bool
option_eq none none = true
option_eq (some s) (some t) = s == t
option_eq none (some t) = false
option_eq (some s) none = false

-- a line break of `str.splitlines`
is_break : ℕ → Bool
is_break c =
    (leb 10 c && leb c 13) || (leb 28 c && leb c 30) || eqb c 0x85 || eqb c 0x2028 || eqb c 0x2029

-- "\r\n" is one break
pairs_up : ℕ → String → Bool
pairs_up c String.[] = false
pairs_up c (String.◌∷◌ d s) = eqb c 13 && eqb (code d) 10

-- s.splitlines()
unfoldable pub splitlines : String → List String
unfolding is_break pairs_up prepend
splitlines String.[] = []
splitlines (String.◌∷◌ c s) =
    let rest = splitlines s in
    if is_break (code c) then (if pairs_up (code c) s then rest else "" ∷ rest) else prepend c rest

-- s[len(prefix):] if s.startswith(prefix)
unfoldable pub drop_prefix : String → String → Option String
drop_prefix String.[] s = some s
drop_prefix (String.◌∷◌ c p) String.[] = none
drop_prefix (String.◌∷◌ c p) (String.◌∷◌ d s) =
    let rest = drop_prefix p s in if eqb (code c) (code d) then rest else none

right_strip_idem : (s : String) → right_strip (right_strip s) ≡ right_strip s
unfolding right_strip
right_strip_idem String.[] = refl
right_strip_idem (String.◌∷◌ c s) = elim (Bool-cases (is_space (code c) && right_strip s == "")) [
  | inl e ↦ rw e refl
  | inr e ↦ rw (e, right_strip, right_strip_idem s, e) refl
]

left_strip-right_strip :
    (s : String) → left_strip (right_strip (left_strip s)) ≡ right_strip (left_strip s)
unfolding left_strip right_strip
left_strip-right_strip String.[] = refl
left_strip-right_strip (String.◌∷◌ c s) = elim (Bool-cases (is_space (code c))) [
  | inl e ↦ rw e (left_strip-right_strip s)
  | inr e ↦ rw (e, right_strip, e, left_strip, e) refl
]

pub strip_idem : (s : String) → strip (strip s) ≡ strip s
unfolding strip
strip_idem s = rw (left_strip-right_strip s) (right_strip_idem (left_strip s))

-- no character of a text is one that `str.strip` removes
unfoldable pub no_spaces : String → Bool
unfolding is_space
no_spaces String.[] = true
no_spaces (String.◌∷◌ c s) = not (is_space (code c)) && no_spaces s

true_not_false : false ≡ true → ⊥
true_not_false h = cc

right_strip_solid : (s : String) → no_spaces s ≡ true → right_strip s ≡ s
unfolding right_strip no_spaces
right_strip_solid String.[] h = refl
right_strip_solid (String.◌∷◌ c s) h = elim (Bool-cases (is_space (code c))) [
  | inl e ↦ absurd (true_not_false (rw e at h))
  | inr e ↦ rw (e, right_strip_solid s (rw e at h)) refl
]

pub strip_solid : (s : String) → no_spaces s ≡ true → strip s ≡ s
unfolding strip left_strip no_spaces
strip_solid String.[] h = unfold right_strip in refl
strip_solid (String.◌∷◌ c s) h = elim (Bool-cases (is_space (code c))) [
  | inl e ↦ absurd (true_not_false (rw e at h))
  | inr e ↦ rw e (right_strip_solid (String.◌∷◌ c s) h)
]
