-- ===== src/Floats.antt =====
-- Python's `float`, as a parameter: its comparisons, with the part of IEEE 754 that the code relies
-- on. The laws hold of every value, NaN and the infinities included.
use chitra.Prelude.{◌≡◌, Bool, true, false, ℕ, ltb, eqb, leb, arith}

pub record Floats : Type 1 where
  pub Float : Type 0
  pub zero_float : Float
  pub hundred : Float
  -- a < b
  pub lt : Float → Float → Bool
  -- a == b
  pub eq : Float → Float → Bool
  -- a <= b
  pub le : Float → Float → Bool
  pub lt_trans : (a b c : Float) → lt a b ≡ true → lt b c ≡ true → lt a c ≡ true
  pub lt_asymm : (a b : Float) → lt a b ≡ true → lt b a ≡ false
  pub le-lt : (a b : Float) → le a b ≡ true → lt b a ≡ false

-- Whole numbers satisfy the laws.
pub lt_trans_nat : (a b c : ℕ) → ltb a b ≡ true → ltb b c ≡ true → ltb a c ≡ true
lt_trans_nat a b c h k = ground arith

pub lt_asymm_nat : (a b : ℕ) → ltb a b ≡ true → ltb b a ≡ false
lt_asymm_nat a b h = ground arith

pub le-lt_nat : (a b : ℕ) → leb a b ≡ true → ltb b a ≡ false
le-lt_nat a b h = ground arith

abbrev pub whole_floats : Floats
whole_floats = record {
  Float = ℕ;
  zero_float = 0;
  hundred = 100;
  lt = ltb;
  eq = eqb;
  le = leb;
  lt_trans = lt_trans_nat;
  lt_asymm = lt_asymm_nat;
  le-lt = le-lt_nat;
}
