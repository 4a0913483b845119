-- ===== src/Base/Coverage.antt =====
-- How far a test holds along a list.
use Prim.Native.Nat.{ℕ, suc, ◌+◌, ◌≤◌}
use mathlib.Core.Path.{◌≡◌, subst}
use mathlib.Core.Logic.{inl, inr}
use mathlib.Core.List.{List, [], ◌∷◌}
use mathlib.Core.Bool.{Bool, true}
use native.Mathlib.Omega.{arith}
use vibelang.Base.Tests.{Bool-cases}
use vibelang.Base.Lists.{length, drop, count_while}

-- The first `n` items are there and pass a test.
pub data Covers {ℓ} {A : Type ℓ} (p : A → Bool) : ℕ → List A → Type ℓ where
  no_items : {xs : List A} → Covers p 0 xs
  one_more : {x : A} {xs : List A} {n : ℕ} → p x ≡ true → Covers p n xs → Covers p (suc n) (x ∷ xs)

module _ {ℓ} {A : Type ℓ} {p : A → Bool} where
  pub Covers-le-length : {n : ℕ} {xs : List A} → Covers p n xs → n ≤ length xs
  Covers-le-length no_items = omega arith
  Covers-le-length (one_more h c) = omega (arith, Covers-le-length c)

  pub Covers-add :
      {m n : ℕ} {xs : List A} → Covers p m xs → Covers p n (drop m xs) → Covers p (m + n) xs
  Covers-add {n} {xs} no_items d = subst (λ (k : ℕ). Covers p k xs) (omega arith) d
  Covers-add {m} {n} {xs} (one_more h c) d =
      subst (λ (k : ℕ). Covers p k xs) (omega arith) (one_more h (Covers-add c d))

  pub Covers-weaken :
      {q : A → Bool}
      → ((x : A) → p x ≡ true → q x ≡ true)
      → {n : ℕ} {xs : List A} → Covers p n xs
      → Covers q n xs
  Covers-weaken w no_items = no_items
  Covers-weaken w (one_more {x} h c) = one_more (w x h) (Covers-weaken w c)

pub Covers-count_while {ℓ} :
    {A : Type ℓ} (p : A → Bool) (xs : List A) → Covers p (count_while p xs) xs
Covers-count_while p [] = no_items
Covers-count_while p (x ∷ xs) = elim (Bool-cases (p x)) [
  | inl y ↦ rw y (one_more y (Covers-count_while p xs))
  | inr n ↦ rw n no_items
]
