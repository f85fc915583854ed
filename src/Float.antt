-- ===== src/Float.antt =====
-- Python's floats, which the development takes as a parameter: the operations that the code calls,
-- and the documented behaviour of IEEE 754 comparisons and divisions that its properties rest on.
use native.Mathlib.Nat.{div-le_of_le-mul, zero-div}
use incident_awareness_engin.Prelude.{
  ℕ, ◌≤◌, ◌<◌, ◌≡◌, Bool, true, false, not, Option, none, some, arith, ltb, leb, eqb, ◌*◌, ◌/◌,
  refl, ap, le→leb,
}

pub record Float (F : Type 0) : Type 0 where
  -- `x == y`, `x < y`, `x <= y`, `math.isfinite(x)`
  pub same : F → F → Bool
  pub less : F → F → Bool
  pub at_most : F → F → Bool
  pub is_finite : F → Bool
  -- `0.0`, `1.0`
  pub zero : F
  pub one : F
  -- `k / n` of two integers
  pub ratio : ℕ → ℕ → F

-- On finite values the two comparisons are a total order; a quotient of `k <= n` is finite and lies
-- in the unit interval, and `0 / n` is `0.0`.
pub record FloatLaws {F : Type 0} (f : Float F) : Type 0 where
  pub one_finite : f.is_finite f.one ≡ true
  pub zero_finite : f.is_finite f.zero ≡ true
  pub at_most_iff :
      (x y : F) → f.is_finite x ≡ true → f.is_finite y ≡ true → f.at_most x y ≡ not (f.less y x)
  pub same_self : (x : F) → f.is_finite x ≡ true → f.same x x ≡ true
  pub less_irrefl : (x : F) → f.less x x ≡ false
  pub less_trans : (x y z : F) → f.less x y ≡ true → f.less y z ≡ true → f.less x z ≡ true
  pub less_step :
      (x y z : F)
      → f.is_finite x ≡ true
      → f.is_finite y ≡ true
      → f.is_finite z ≡ true
      → f.less x z ≡ true
      → f.less y z ≡ false
      → f.less x y ≡ true
  -- A value between two finite ones is finite.
  pub unit_finite :
      (x : F) → f.at_most f.zero x ≡ true → f.at_most x f.one ≡ true → f.is_finite x ≡ true
  pub ratio_finite : (k n : ℕ) → k ≤ n → 0 < n → f.is_finite (f.ratio k n) ≡ true
  pub ratio_nonneg : (k n : ℕ) → k ≤ n → 0 < n → f.at_most f.zero (f.ratio k n) ≡ true
  pub ratio_le_one : (k n : ℕ) → k ≤ n → 0 < n → f.at_most (f.ratio k n) f.one ≡ true
  pub ratio_zero : (n : ℕ) → 0 < n → f.ratio 0 n ≡ f.zero

-- A concrete instance: millionths, with a value that is not a number.
abbrev pub Millionths : Type 0
Millionths = Option ℕ

abbrev millionths_same : Millionths → Millionths → Bool
millionths_same (some a) (some b) = eqb a b
millionths_same _ _ = false

abbrev millionths_less : Millionths → Millionths → Bool
millionths_less (some a) (some b) = ltb a b
millionths_less _ _ = false

abbrev millionths_at_most : Millionths → Millionths → Bool
millionths_at_most (some a) (some b) = leb a b
millionths_at_most _ _ = false

abbrev millionths_finite : Millionths → Bool
millionths_finite (some a) = true
millionths_finite none = false

abbrev millionths_ratio : ℕ → ℕ → Millionths
millionths_ratio k n = some (k * 1_000_000 / n)

instance abbrev pub millionths : Float Millionths
millionths = record {
  same = millionths_same;
  less = millionths_less;
  at_most = millionths_at_most;
  is_finite = millionths_finite;
  zero = some 0;
  one = some 1_000_000;
  ratio = millionths_ratio;
}

millionths_at_most_iff :
    (x y : Millionths)
    → millionths_finite x ≡ true
    → millionths_finite y ≡ true
    → millionths_at_most x y ≡ not (millionths_less y x)
millionths_at_most_iff none y h k = cc
millionths_at_most_iff (some a) none h k = cc
millionths_at_most_iff (some a) (some b) h k = ground arith

millionths_same_self : (x : Millionths) → millionths_finite x ≡ true → millionths_same x x ≡ true
millionths_same_self none h = cc
millionths_same_self (some a) h = ground arith

millionths_le_one :
    (k n : ℕ) → k ≤ n → millionths_at_most (millionths_ratio k n) (some 1_000_000) ≡ true
millionths_le_one k n h = le→leb _ _ (div-le_of_le-mul n (omega (arith, h)))

pub millionths_laws : FloatLaws millionths
millionths_laws = record {
  one_finite = refl;
  zero_finite = refl;
  at_most_iff = millionths_at_most_iff;
  same_self = millionths_same_self;
  less_irrefl = λ x. ground arith;
  less_trans = λ x y z h k. ground arith;
  less_step = λ x y z hx hy hz h k. ground arith;
  unit_finite = λ x h k. ground arith;
  ratio_finite = λ k n h p. refl;
  ratio_nonneg = λ k n h p. ground arith;
  ratio_le_one = λ k n h p. millionths_le_one k n h;
  ratio_zero = λ n p. ap some (zero-div n);
}
