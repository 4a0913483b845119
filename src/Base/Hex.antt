-- ===== src/Base/Hex.antt =====
-- Digits in base 16, written and read.
use Prim.Native.Nat.{ℕ, zero, suc, ◌+◌, ◌*◌, ◌-◌, ◌/◌, ◌%◌, ◌^◌, ◌<◌}
use mathlib.Core.Path.{◌≡◌, refl, ◌∙◌}
use mathlib.Core.List.{[], ◌∷◌, ◌++◌}
use mathlib.Core.Bool.{Bool, true, ◌&&◌, ◌||◌}
use native.Mathlib.Omega.{arith}
use vibelang.Base.Tests.{ltb, leb, if◌then◌else◌}
use vibelang.Base.Lists.{length, length-append}
use vibelang.Base.Texts.{Text}

unfoldable pub hex_digit : ℕ → ℕ
hex_digit d = if ltb d 10 then b'0' + d else b'a' + (d - 10)

-- The `n` lowest digits in base 16.
unfoldable pub hex : ℕ → ℕ → Text
unfolding hex_digit
hex zero h = []
hex (suc n) h = hex n (h / 16) ++ hex_digit (h % 16) ∷ []

-- The value of a digit in base 16, and of a text of them.
unfoldable pub digit_value : ℕ → ℕ
digit_value c = if leb b'a' c then c - b'a' + 10 else c - b'0'

unfoldable pub is_hex : ℕ → Bool
is_hex c = (leb b'0' c && leb c b'9') || (leb b'a' c && leb c b'f')

unfoldable pub hex_value : ℕ → Text → ℕ
unfolding digit_value
hex_value acc [] = acc
hex_value acc (c ∷ s) = hex_value (acc * 16 + digit_value c) s

hex_value-append :
    (acc : ℕ) (s : Text) (c : ℕ)
    → hex_value acc (s ++ c ∷ []) ≡ hex_value acc s * 16 + digit_value c
unfolding hex_value
hex_value-append acc [] c = refl
hex_value-append acc (d ∷ s) c = hex_value-append (acc * 16 + digit_value d) s c

pub digit_value-hex_digit : (d : ℕ) → d < 16 → digit_value (hex_digit d) ≡ d
unfolding digit_value hex_digit
digit_value-hex_digit d h = ground arith

pub hex_value-hex : (n h : ℕ) → h < 16 ^ n → hex_value 0 (hex n h) ≡ h
unfolding hex hex_value
hex_value-hex zero h lt = omega arith
hex_value-hex (suc n) h lt =
    hex_value-append 0 (hex n (h / 16)) (hex_digit (h % 16))
    ∙ omega (
      arith,
      hex_value-hex n (h / 16) (ground (arith, lt)),
      digit_value-hex_digit (h % 16) (omega arith),
    )

pub length-hex : (n h : ℕ) → length (hex n h) ≡ n
unfolding hex
length-hex zero h = refl
length-hex (suc n) h =
    omega (arith, length-append (hex n (h / 16)) (hex_digit (h % 16) ∷ []), length-hex n (h / 16))

pub is_hex-hex_digit : (d : ℕ) → d < 16 → is_hex (hex_digit d) ≡ true
unfolding is_hex hex_digit
is_hex-hex_digit d h = ground arith
