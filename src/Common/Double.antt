-- ===== src/Common/Double.antt =====
-- The `double` of C++ as far as the program uses it: an interface of operations with no law, and
-- the facts of IEEE 754 about comparisons that theorems name as a hypothesis.
use Prim.Native.Nat.{ℕ}
use mathlib.Core.Path.{◌≡◌}
use mathlib.Core.Bool.{Bool, true, false}

pub record Double (D : Type 0) : Type 0 where
  -- `std::isfinite`, and the operators `<`, `<=` and `==`.
  pub is_finite : D → Bool
  pub lt : D → D → Bool
  pub le : D → D → Bool
  pub eq : D → D → Bool
  pub add : D → D → D
  pub sub : D → D → D
  pub mul : D → D → D
  pub div : D → D → D
  pub neg : D → D
  pub abs : D → D
  pub sqrt : D → D
  -- The literal m * 10^-k.
  pub decimal : ℕ → ℕ → D
  pub infinity : D

-- Comparisons with NaN are false, so `le x x` says that `x` is a number. Infinities are ordered.
pub record IsOrdered (D : Type 0) ⦃d : Double D⦄ : Type 0 where
  pub le_of_finite : (x : D) → d.is_finite x ≡ true → d.le x x ≡ true
  pub one_finite : d.is_finite (d.decimal 1 0) ≡ true
  pub not_finite_infinity : d.is_finite (d.neg d.infinity) ≡ false
  pub le_infinity : d.le (d.neg d.infinity) (d.neg d.infinity) ≡ true
  pub lt_irrefl : (x : D) → d.lt x x ≡ false
  pub lt_trans : (x y z : D) → d.lt x y ≡ true → d.lt y z ≡ true → d.lt x z ≡ true
  pub lt_of_not_le :
      (x y : D) → d.le x x ≡ true → d.le y y ≡ true → d.le x y ≡ false → d.lt y x ≡ true
  pub le_of_not_lt :
      (x y : D) → d.le x x ≡ true → d.le y y ≡ true → d.lt x y ≡ false → d.le y x ≡ true
  pub not_le_of_lt : (x y : D) → d.lt x y ≡ true → d.le y x ≡ false
  pub le_of_lt : (x y : D) → d.lt x y ≡ true → d.le x y ≡ true
  pub le_trans : (x y z : D) → d.le x y ≡ true → d.le y z ≡ true → d.le x z ≡ true
  pub lt_of_le_of_lt : (x y z : D) → d.le x y ≡ true → d.lt y z ≡ true → d.lt x z ≡ true
  pub lt_of_lt_of_le : (x y z : D) → d.lt x y ≡ true → d.le y z ≡ true → d.lt x z ≡ true
