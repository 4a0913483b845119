-- ===== src/Patch/Hash.antt =====
-- src/patch.rs: what the hash of a text tells of the text.
use vibelang.Base.{
  ℕ, ◌*◌, ◌%◌, ◌^◌, ◌<◌, Text, Bool, true, [], ◌∷◌, ◌++◌, ◌≡◌, ◌≢◌, refl, sym, ap, ◌∙◌, arith, ltb,
  all, and_true, ltb→lt,
}
use Prim.Native.Nat.{bit_xor}
use vibelang.Base.Bits.{bit_xor_left, bit_xor_right, bit_xor-lt}
use vibelang.Base.Hex.{hex_value, hex_value-hex}
use vibelang.Patch.{fnv, hash}

-- Every number of the text is a byte.
abbrev pub is_bytes : Text → Bool
is_bytes = all (λ b. ltb b 256)

fnv-lt : (h : ℕ) (s : Text) → h < 2 ^ 64 → fnv h s < 2 ^ 64
unfolding fnv
fnv-lt h [] lt = lt
fnv-lt h (c ∷ s) lt = fnv-lt (bit_xor h c * 0x100000001b3 % 2 ^ 64) s (omega arith)

-- The prime has an inverse in 64 bits.
unscaled : (x : ℕ) → x < 2 ^ 64 → x * 0x100000001b3 % 2 ^ 64 * 0xce965057aff6957b % 2 ^ 64 ≡ x
unscaled x lt = omega arith

scaled_injective :
    (x y : ℕ)
    → x < 2 ^ 64
    → y < 2 ^ 64
    → x * 0x100000001b3 % 2 ^ 64 ≡ y * 0x100000001b3 % 2 ^ 64
    → x ≡ y
scaled_injective x y lx ly h =
    sym (unscaled x lx) ∙ ap (λ z. z * 0xce965057aff6957b % 2 ^ 64) h ∙ unscaled y ly

fnv-append : (h : ℕ) (s t : Text) → fnv h (s ++ t) ≡ fnv (fnv h s) t
unfolding fnv
fnv-append h [] t = refl
fnv-append h (c ∷ s) t = fnv-append (bit_xor h c * 0x100000001b3 % 2 ^ 64) s t

-- A byte added to two different hashes leaves them different.
fnv_left :
    (g h : ℕ) (s : Text) → g < 2 ^ 64 → h < 2 ^ 64 → is_bytes s ≡ true → fnv g s ≡ fnv h s → g ≡ h
unfolding fnv
fnv_left g h [] lg lh b e = e
fnv_left g h (c ∷ s) lg lh b e =
    let (byte, rest) = and_true (ltb c 256) (is_bytes s) b in
    let small : c < 2 ^ 64 = omega (arith, ltb→lt c 256 byte) in
    bit_xor_left g h c (
      scaled_injective (bit_xor g c) (bit_xor h c) (bit_xor-lt 64 g c lg small)
        (bit_xor-lt 64 h c lh small)
        (fnv_left (bit_xor g c * 0x100000001b3 % 2 ^ 64) (bit_xor h c * 0x100000001b3 % 2 ^ 64) s
          (omega arith) (omega arith) rest e))

fnv_byte :
    (h c d : ℕ) (s : Text)
    → h < 2 ^ 64
    → c < 256
    → d < 256
    → is_bytes s ≡ true
    → fnv h (c ∷ s) ≡ fnv h (d ∷ s)
    → c ≡ d
unfolding fnv
fnv_byte h c d s lh lc ld b e = bit_xor_right h c d (
    scaled_injective (bit_xor h c) (bit_xor h d) (bit_xor-lt 64 h c lh (omega arith))
      (bit_xor-lt 64 h d lh (omega arith))
      (fnv_left (bit_xor h c * 0x100000001b3 % 2 ^ 64) (bit_xor h d * 0x100000001b3 % 2 ^ 64) s
        (omega arith) (omega arith) b e))

-- Read back in base 16, the digits of a hash are the hash as a number of 64 bits.
hex_value-hash : (s : Text) → hex_value 0 (hash s) ≡ fnv 0xcbf29ce484222325 s
unfolding hash
hex_value-hash s =
    hex_value-hex 16 (fnv 0xcbf29ce484222325 s) (fnv-lt 0xcbf29ce484222325 s (omega arith))

-- Changing one byte of a text changes its hash: two texts with different bytes at one place, the same
-- before it, and the same bytes behind it, have different hashes.
pub hash_change :
    (before : Text)
    → (c d : ℕ) → (behind : Text) → c < 256
    → d < 256
    → is_bytes behind ≡ true
    → c ≢ d
    → hash (before ++ c ∷ behind) ≢ hash (before ++ d ∷ behind)
hash_change before c d behind lc ld b differ e =
    let h : ℕ = fnv 0xcbf29ce484222325 before in
    differ (
      fnv_byte h c d behind (fnv-lt 0xcbf29ce484222325 before (omega arith)) lc ld b (
        sym (fnv-append 0xcbf29ce484222325 before (c ∷ behind))
        ∙ sym (hex_value-hash (before ++ c ∷ behind))
        ∙ ap (hex_value 0) e
        ∙ hex_value-hash (before ++ d ∷ behind)
        ∙ fnv-append 0xcbf29ce484222325 before (d ∷ behind)))
