-- ===== src/Base/Texts.antt =====
-- Texts as lists of bytes. Every literal below is ASCII, so a code point is its byte.
use Prim.Native.Nat.{ℕ}
use Prim.Native.Char.{code}
use Prim.Native.String.{String}
use mathlib.Core.Path.{◌≡◌, refl, subst}
use mathlib.Core.Logic.{◌↔◌, inl, inr}
use mathlib.Core.List.{List, [], ◌∷◌, ◌++◌}
use mathlib.Core.Bool.{Bool, true, false, ◌&&◌, ◌||◌}
use native.Mathlib.Omega.{arith}
use vibelang.Base.Tests.{◌==◌, or_true}
use vibelang.Base.Lists.{In, here, there, In-cons}

abbrev pub Text : Type 0
Text = List ℕ

abbrev pub codes : String → Text
codes String.[] = []
codes (String.◌∷◌ c s) = code c ∷ codes s

unfoldable pub text_eq : Text → Text → Bool
text_eq [] [] = true
text_eq (a ∷ s) (b ∷ t) = a == b && text_eq s t
text_eq _ _ = false

pub text_eq_iff : (s t : Text) → (text_eq s t ≡ true) ↔ (s ≡ t)
unfolding text_eq
text_eq_iff (a ∷ s) (b ∷ t) = ground (arith, text_eq_iff s t)
text_eq_iff _ _ = ground arith

pub text_eq_refl : (s : Text) → text_eq s s ≡ true
text_eq_refl s = (text_eq_iff s s).1 refl

pub text_eq→eq : (s t : Text) → text_eq s t ≡ true → s ≡ t
text_eq→eq s t = (text_eq_iff s t).0

-- `contains` on a collection of names.
unfoldable pub contains : List Text → Text → Bool
contains [] s = false
contains (t ∷ ts) s = text_eq t s || contains ts s

-- `join(separator)`.
unfoldable pub join : Text → List Text → Text
join sep [] = []
join sep (s ∷ []) = s
join sep (s ∷ t ∷ ts) = s ++ (sep ++ join sep (t ∷ ts))

pub contains-append :
    (s t : List Text) (n : Text) → contains (s ++ t) n ≡ (contains s n || contains t n)
unfolding contains
contains-append [] t n = refl
contains-append (x ∷ s) t n = ground (arith, contains-append s t n)

pub contains-In : (ts : List Text) (n : Text) → contains ts n ≡ true → In n ts
unfolding contains
contains-In [] n h = absurd (cc h)
contains-In (t ∷ ts) n h = elim (or_true (text_eq t n) _ h) [
  | inl same ↦ subst (λ x. In x (t ∷ ts)) (text_eq→eq t n same) here
  | inr later ↦ there (contains-In ts n later)
]

pub In-contains : (ts : List Text) (n : Text) → In n ts → contains ts n ≡ true
unfolding contains
In-contains [] n m = elim m [ ]
In-contains (t ∷ ts) n m = elim (In-cons m) [
  | inl same ↦ rw (same, text_eq_refl t)
  | inr later ↦ ground (arith, In-contains ts n later)
]
