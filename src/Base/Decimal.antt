-- ===== src/Base/Decimal.antt =====
-- Numbers in base 10, written and read.
use Prim.Native.Nat.{ℕ, zero, suc, ◌+◌, ◌*◌, ◌-◌, ◌/◌, ◌%◌, ◌<◌}
use mathlib.Core.Path.{◌≡◌, refl, sym, ap, ◌∙◌, subst}
use mathlib.Core.Logic.{inl, inr, ◌≢◌}
use mathlib.Core.List.{[], ◌∷◌, ◌++◌, append_assoc, append-nil}
use mathlib.Core.Bool.{Bool, true, false, ◌&&◌}
use native.Mathlib.Omega.{arith}
use vibelang.Base.Tests.{ltb, leb, ◌==◌, Bool-cases}
use vibelang.Base.Lists.{all}
use vibelang.Base.Texts.{Text}

-- `to_string` of a number: its decimal digits, on fuel that a number never uses up.
decimal_onto : ℕ → ℕ → Text → Text
decimal_onto zero n out = out
decimal_onto (suc f) n out = elim (ltb n 10) [
  | true ↦ (b'0' + n) ∷ out
  | false ↦ decimal_onto f (n / 10) ((b'0' + n % 10) ∷ out)
]

unfoldable pub decimal : ℕ → Text
unfolding decimal_onto
decimal n = decimal_onto (suc n) n []

abbrev pub is_digit : ℕ → Bool
is_digit c = leb b'0' c && leb c b'9'

-- What digits are worth, after digits that are worth `acc`.
unfoldable pub decimal_value : ℕ → Text → ℕ
decimal_value acc [] = acc
decimal_value acc (c ∷ s) = decimal_value (acc * 10 + (c - b'0')) s

decimal_value-append :
    (acc : ℕ) (s : Text) (c : ℕ)
    → decimal_value acc (s ++ c ∷ []) ≡ decimal_value acc s * 10 + (c - b'0')
unfolding decimal_value
decimal_value-append acc [] c = refl
decimal_value-append acc (d ∷ s) c = decimal_value-append (acc * 10 + (d - b'0')) s c

all-append_one :
    (s : Text) (c : ℕ)
    → all is_digit s ≡ true
    → is_digit c ≡ true
    → all is_digit (s ++ c ∷ []) ≡ true
all-append_one [] c h d = ground (arith, d)
all-append_one (x ∷ s) c h d = ground (arith, all-append_one s c)

-- The digits of a number: its first digit is 0 only where the number is.
pub record IsDecimal (n : ℕ) (digits : Text) : Type 0 where
  pub first : ℕ
  pub others : Text
  pub starts : digits ≡ first ∷ others
  pub no_zero : n ≢ 0 → (first == b'0') ≡ false
  pub one_digit : n ≡ 0 → others ≡ []
  pub digit : all is_digit digits ≡ true
  pub value : decimal_value 0 digits ≡ n

decimal_onto-IsDecimal :
    (f n : ℕ) (out : Text)
    → n < f
    → (ds : Text) × (decimal_onto f n out ≡ ds ++ out) × IsDecimal n ds
unfolding decimal_onto decimal_value
decimal_onto-IsDecimal zero n out h = absurd (omega arith)
decimal_onto-IsDecimal (suc f) n out h = elim (Bool-cases (ltb n 10)) [
  | inl small ↦ (
    (b'0' + n) ∷ [],
    rw (decimal_onto, small) refl,
    record {
      first = b'0' + n;
      others = [];
      starts = refl;
      no_zero = λ nz. ground (arith, nz);
      one_digit = λ z. refl;
      digit = ground (arith, small);
      value = omega arith;
    },
  )
  | inr large ↦
      let (ds, e, d) =
        decimal_onto-IsDecimal f (n / 10) ((b'0' + n % 10) ∷ out) (ground (arith, h, large)) in
      (
        ds ++ (b'0' + n % 10) ∷ [],
        rw (decimal_onto, large) (e ∙ sym (append_assoc ds ((b'0' + n % 10) ∷ []) out)),
        record {
          first = d.first;
          others = d.others ++ (b'0' + n % 10) ∷ [];
          starts = ap (λ (t : Text). t ++ (b'0' + n % 10) ∷ []) d.starts;
          no_zero = λ nz. d.no_zero (λ z. ground (arith, z, large));
          one_digit = λ z. absurd (ground (arith, z, large));
          digit = all-append_one ds (b'0' + n % 10) d.digit (ground arith);
          value = decimal_value-append 0 ds (b'0' + n % 10) ∙ omega (arith, d.value);
        },
      )
]

-- `to_string` writes the digits of its number.
pub decimal-IsDecimal : (n : ℕ) → IsDecimal n (decimal n)
unfolding decimal
decimal-IsDecimal n =
    let (ds, e, d) = decimal_onto-IsDecimal (suc n) n [] (omega arith) in
    subst (IsDecimal n) (sym (append-nil ds) ∙ sym e) d
