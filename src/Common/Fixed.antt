-- ===== src/Common/Fixed.antt =====
-- A concrete `Double` for the examples: decimals in units of 10^-12, the two infinities and NaN.
use Prim.Native.Nat.{ℕ, ◌-◌, ◌*◌, ◌/◌, ◌^◌}
use mathlib.Core.Bool.{Bool, true, false}
use native.Mathlib.Omega.{arith}
use adaptive_lio.Common.Lists.{ltb, if◌then◌else◌}
use adaptive_lio.Common.Int.{
  ℤ, pos, pos_part, neg_part, negsuc, sub_ℕ, ◌+ℤ◌, ◌*ℤ◌, divide, ltb_ℤ, leb_ℤ, eqb_ℤ,
}
use adaptive_lio.Common.Double.{Double, IsOrdered}

pub data Fixed : Type 0 where
  nan neg_inf pos_inf : Fixed
  fin : ℤ → Fixed

abbrev pub lt : Fixed → Fixed → Bool
lt (fin a) (fin b) = ltb_ℤ a b
lt neg_inf (fin b) = true
lt neg_inf pos_inf = true
lt (fin a) pos_inf = true
lt a b = false

abbrev pub le : Fixed → Fixed → Bool
le (fin a) (fin b) = leb_ℤ a b
le neg_inf (fin b) = true
le neg_inf pos_inf = true
le neg_inf neg_inf = true
le (fin a) pos_inf = true
le pos_inf pos_inf = true
le a b = false

abbrev pub eq : Fixed → Fixed → Bool
eq (fin a) (fin b) = eqb_ℤ a b
eq neg_inf neg_inf = true
eq pos_inf pos_inf = true
eq a b = false

abbrev pub neg : Fixed → Fixed
neg nan = nan
neg neg_inf = pos_inf
neg pos_inf = neg_inf
neg (fin a) = fin (sub_ℕ (neg_part a) (pos_part a))

abbrev pub add : Fixed → Fixed → Fixed
add (fin a) (fin b) = fin (a +ℤ b)
add nan b = nan
add a nan = nan
add neg_inf pos_inf = nan
add pos_inf neg_inf = nan
add neg_inf b = neg_inf
add pos_inf b = pos_inf
add (fin a) b = b

abbrev pub sub : Fixed → Fixed → Fixed
sub a b = add a (neg b)

-- Products with an infinity and square roots are not needed by the examples.
abbrev pub mul : Fixed → Fixed → Fixed
mul (fin a) (fin b) = fin (divide (a *ℤ b) (10 ^ 12))
mul a b = nan

abbrev pub div : Fixed → Fixed → Fixed
div (fin a) (fin (pos n)) = if ltb 0 n then fin (divide (a *ℤ pos (10 ^ 12)) n) else nan
div a b = nan

abbrev pub abs : Fixed → Fixed
abs (fin a) = fin (pos (elim a [ pos n ↦ n | negsuc n ↦ neg_part (negsuc n) ]))
abs nan = nan
abs a = pos_inf

abbrev pub is_finite : Fixed → Bool
is_finite (fin a) = true
is_finite a = false

abbrev pub decimal : ℕ → ℕ → Fixed
decimal m k = fin (pos (m * 10 ^ (12 - k) / 10 ^ (k - 12)))

instance abbrev pub fixed_double : Double Fixed
fixed_double = record {
  is_finite = is_finite;
  lt = lt;
  le = le;
  eq = eq;
  add = add;
  sub = sub;
  mul = mul;
  div = div;
  neg = neg;
  abs = abs;
  sqrt = λ a. a;
  decimal = decimal;
  infinity = pos_inf;
}

pub Fixed-IsOrdered : IsOrdered Fixed
Fixed-IsOrdered = ground arith
