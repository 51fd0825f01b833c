-- ===== src/Mapping/Bits.antt =====
-- Facts about the exclusive or of numbers of any width, for the checksum of scantext_module/Mapping.cpp.
use Prim.Native.Nat.{bit_xor, bit_xor-bitwise, digits, differ}
use native.Mathlib.Nat.{pow-suc}
use adaptive_lio.Common.{
  ℕ, zero, suc, ◌+◌, ◌-◌, ◌*◌, ◌/◌, ◌%◌, ◌^◌, ◌≤◌, ◌<◌, ◌≡◌, refl, ap, ◌∙◌, sym, arith,
}

-- Once the fuel covers the number, a further unit of it changes nothing.
one_more : (n a b : ℕ) → a ≤ n → digits (λ y. y) differ (suc n) a b ≡ digits (λ y. y) differ n a b
one_more zero zero b h = refl
one_more zero (suc a) b h = absurd (omega arith)
one_more (suc n) zero b h = refl
one_more (suc n) (suc a) b h = omega (arith, one_more n (suc a / 2) (b / 2) (omega arith))

spare : (k n a b : ℕ) → a ≤ n → digits (λ y. y) differ (k + n) a b ≡ digits (λ y. y) differ n a b
spare zero n a b h = let e : 0 + n ≡ n = omega arith in ap (λ j. digits (λ y. y) differ j a b) e
spare (suc k) n a b h =
    let e : suc k + n ≡ suc (k + n) = omega arith in
    ap (λ j. digits (λ y. y) differ j a b) e
    ∙ (one_more (k + n) a b (omega arith) ∙ spare k n a b h)

-- The fuel of a number is more than that of its half.
halved :
    (a b : ℕ)
    → digits (λ y. y) differ a (suc a / 2) b ≡ digits (λ y. y) differ (suc a / 2) (suc a / 2) b
halved a b =
    let fuel : a - suc a / 2 + suc a / 2 ≡ a = omega arith in
    ap (λ n. digits (λ y. y) differ n (suc a / 2) b) (sym fuel)
    ∙ spare (a - suc a / 2) (suc a / 2) (suc a / 2) b (omega arith)

-- Exclusive or of two digits.
differ_mod : (x y : ℕ) → x < 2 → y < 2 → differ x y ≡ (x + y) % 2
differ_mod zero y p q = omega arith
differ_mod (suc zero) zero p q = refl
differ_mod (suc zero) (suc zero) p q = refl
differ_mod (suc zero) (suc (suc y)) p q = absurd (omega arith)
differ_mod (suc (suc x)) y p q = absurd (omega arith)

pub bit_xor_step : (a b : ℕ) → bit_xor a b ≡ bit_xor (a / 2) (b / 2) * 2 + (a % 2 + b % 2) % 2
bit_xor_step zero b = simp bit_xor-bitwise (omega arith)
bit_xor_step (suc a) b = omega (
  arith,
  bit_xor-bitwise (suc a) b,
  bit_xor-bitwise (suc a / 2) (b / 2),
  halved a (b / 2),
  differ_mod (suc a % 2) (b % 2) (omega arith) (omega arith),
)

-- Equal results of the same number come from equal numbers; `n` bounds all three.
inj_fuel : (n a b c : ℕ) → a ≤ n → b ≤ n → c ≤ n → bit_xor a c ≡ bit_xor b c → a ≡ b
inj_fuel zero a b c p q r h = omega arith
inj_fuel (suc n) a b c p q r h =
    let sa = bit_xor_step a c in
    let sb = bit_xor_step b c in
    let halves : bit_xor (a / 2) (c / 2) ≡ bit_xor (b / 2) (c / 2) = omega (arith, sa, sb) in
    let same =
      inj_fuel n (a / 2) (b / 2) (c / 2) (omega arith) (omega arith) (omega arith) halves in
    omega (arith, sa, sb, same)

comm_fuel : (n a b : ℕ) → a ≤ n → b ≤ n → bit_xor a b ≡ bit_xor b a
comm_fuel zero zero zero p q = refl
comm_fuel zero zero (suc b) p q = absurd (omega arith)
comm_fuel zero (suc a) b p q = absurd (omega arith)
comm_fuel (suc n) a b p q = omega (
  arith,
  bit_xor_step a b,
  bit_xor_step b a,
  comm_fuel n (a / 2) (b / 2) (omega arith) (omega arith),
)

pub bit_xor_inj_left : (a b c : ℕ) → bit_xor a c ≡ bit_xor b c → a ≡ b
bit_xor_inj_left a b c h = inj_fuel (a + b + c) a b c (omega arith) (omega arith) (omega arith) h

pub bit_xor_comm : (a b : ℕ) → bit_xor a b ≡ bit_xor b a
bit_xor_comm a b = comm_fuel (a + b) a b (omega arith) (omega arith)

pub bit_xor_inj_right : (c a b : ℕ) → bit_xor c a ≡ bit_xor c b → a ≡ b
bit_xor_inj_right c a b h =
    bit_xor_inj_left a b c (omega (arith, bit_xor_comm a c, bit_xor_comm b c))

-- The exclusive or of two numbers of `k` bits has `k` bits.
pub bit_xor-lt : (k a b : ℕ) → a < 2 ^ k → b < 2 ^ k → bit_xor a b < 2 ^ k
bit_xor-lt zero zero zero p q = omega arith
bit_xor-lt zero zero (suc b) p q = absurd (omega arith)
bit_xor-lt zero (suc a) b p q = absurd (omega arith)
bit_xor-lt (suc k) a b p q =
    let e = pow-suc 2 k in
    omega (
      arith,
      e,
      bit_xor_step a b,
      bit_xor-lt k (a / 2) (b / 2) (omega (arith, e)) (omega (arith, e)),
    )
