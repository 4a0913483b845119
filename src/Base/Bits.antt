-- ===== src/Base/Bits.antt =====
-- Exclusive or on numbers of any width: either side is determined by the other and the result.
use Prim.Native.Nat.{
  ℕ, zero, suc, ◌+◌, ◌*◌, ◌/◌, ◌%◌, ◌^◌, ◌≤◌, ◌<◌, bit_xor, digits, differ, bit_xor-bitwise,
}
use mathlib.Core.Path.{◌≡◌, refl, ◌∙◌}
use native.Mathlib.Omega.{arith}

abbrev xor_digits : ℕ → ℕ → ℕ → ℕ
xor_digits n a b = digits (λ b. b) differ n a b

xor_digits_fuel : (n m a b : ℕ) → a ≤ n → a ≤ m → xor_digits n a b ≡ xor_digits m a b
xor_digits_fuel zero zero a b p q = refl
xor_digits_fuel zero (suc m) zero b p q = refl
xor_digits_fuel zero (suc m) (suc a) b p q = absurd (omega arith)
xor_digits_fuel (suc n) zero zero b p q = refl
xor_digits_fuel (suc n) zero (suc a) b p q = absurd (omega arith)
xor_digits_fuel (suc n) (suc m) zero b p q = refl
xor_digits_fuel (suc n) (suc m) (suc a) b p q =
    omega (arith, xor_digits_fuel n m (suc a / 2) (b / 2) (omega arith) (omega arith))

zero-bit_xor : (b : ℕ) → bit_xor 0 b ≡ b
zero-bit_xor b = bit_xor-bitwise 0 b

differ_zero : (d : ℕ) → differ 0 d ≡ d
differ_zero d = refl

bit_xor_step : (a b : ℕ) → bit_xor a b ≡ bit_xor (a / 2) (b / 2) * 2 + differ (a % 2) (b % 2)
bit_xor_step zero b = omega (arith, zero-bit_xor b, zero-bit_xor (b / 2))
bit_xor_step (suc a) b = omega (
  arith,
  bit_xor-bitwise (suc a) b,
  bit_xor-bitwise (suc a / 2) (b / 2),
  xor_digits_fuel a (suc a / 2) (suc a / 2) (b / 2) (omega arith) (omega arith),
)

digit_le : (d e : ℕ) → d < 2 → e < 2 → differ d e < 2
digit_le zero e p q = q
digit_le (suc zero) zero p q = omega arith
digit_le (suc zero) (suc zero) p q = omega arith
digit_le (suc zero) (suc (suc e)) p q = absurd (omega arith)
digit_le (suc (suc d)) e p q = absurd (omega arith)

digit_left : (d e f : ℕ) → d < 2 → e < 2 → f < 2 → differ d f ≡ differ e f → d ≡ e
digit_left zero zero f p q r h = refl
digit_left zero (suc zero) zero p q r h = absurd (omega (arith, h))
digit_left zero (suc zero) (suc zero) p q r h = absurd (omega (arith, h))
digit_left zero (suc zero) (suc (suc f)) p q r h = absurd (omega arith)
digit_left zero (suc (suc e)) f p q r h = absurd (omega arith)
digit_left (suc zero) zero zero p q r h = absurd (omega (arith, h))
digit_left (suc zero) zero (suc zero) p q r h = absurd (omega (arith, h))
digit_left (suc zero) zero (suc (suc f)) p q r h = absurd (omega arith)
digit_left (suc zero) (suc zero) f p q r h = refl
digit_left (suc zero) (suc (suc e)) f p q r h = absurd (omega arith)
digit_left (suc (suc d)) e f p q r h = absurd (omega arith)

digit_comm : (d e : ℕ) → differ d e ≡ differ e d
digit_comm zero zero = refl
digit_comm zero (suc e) = refl
digit_comm (suc d) zero = refl
digit_comm (suc d) (suc e) = digit_comm d e

bit_xor_comm_fuel : (n a b : ℕ) → a ≤ n → b ≤ n → bit_xor a b ≡ bit_xor b a
bit_xor_comm_fuel zero zero zero p q = refl
bit_xor_comm_fuel zero (suc a) b p q = absurd (omega arith)
bit_xor_comm_fuel zero zero (suc b) p q = absurd (omega arith)
bit_xor_comm_fuel (suc n) a b p q = omega (
  arith,
  bit_xor_step a b,
  bit_xor_step b a,
  digit_comm (a % 2) (b % 2),
  bit_xor_comm_fuel n (a / 2) (b / 2) (omega arith) (omega arith),
)

bit_xor_comm : (a b : ℕ) → bit_xor a b ≡ bit_xor b a
bit_xor_comm a b = bit_xor_comm_fuel (a + b) a b (omega arith) (omega arith)

bit_xor_left_fuel : (n a b c : ℕ) → a ≤ n → b ≤ n → bit_xor a c ≡ bit_xor b c → a ≡ b
bit_xor_left_fuel zero a b c p q h = omega arith
bit_xor_left_fuel (suc n) a b c p q h =
    let da = digit_le (a % 2) (c % 2) (omega arith) (omega arith) in
    let db = digit_le (b % 2) (c % 2) (omega arith) (omega arith) in
    let sa = bit_xor_step a c in
    let sb = bit_xor_step b c in
    let tops =
      bit_xor_left_fuel n (a / 2) (b / 2) (c / 2) (omega arith) (omega arith)
        (omega (arith, da, db, sa, sb, h)) in
    let ends =
      digit_left (a % 2) (b % 2) (c % 2) (omega arith) (omega arith) (omega arith)
        (omega (arith, da, db, sa, sb, h)) in
    omega (arith, tops, ends)

-- The left side is determined by the right and the result.
pub bit_xor_left : (a b c : ℕ) → bit_xor a c ≡ bit_xor b c → a ≡ b
bit_xor_left a b c h = bit_xor_left_fuel (a + b) a b c (omega arith) (omega arith) h

pub bit_xor_right : (a b c : ℕ) → bit_xor a b ≡ bit_xor a c → b ≡ c
bit_xor_right a b c h = bit_xor_left b c a (bit_xor_comm b a ∙ h ∙ bit_xor_comm a c)

-- No digit is above those of both sides.
pub bit_xor-lt : (n a b : ℕ) → a < 2 ^ n → b < 2 ^ n → bit_xor a b < 2 ^ n
bit_xor-lt zero zero zero p q = omega arith
bit_xor-lt zero zero (suc b) p q = absurd (omega arith)
bit_xor-lt zero (suc a) b p q = absurd (omega arith)
bit_xor-lt (suc n) a b p q = ground (
  arith,
  p,
  q,
  bit_xor_step a b,
  digit_le (a % 2) (b % 2) (omega arith) (omega arith),
  bit_xor-lt n (a / 2) (b / 2) (ground (arith, p)) (ground (arith, q)),
)
