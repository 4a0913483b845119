-- ===== src/Base/Slices.antt =====
-- Parts of lists: what `take`, `drop` and `reversed` have to do with each other.
use Prim.Native.Nat.{ℕ, zero, suc, ◌+◌, ◌-◌, ◌<◌, ◌≤◌}
use mathlib.Core.Path.{◌≡◌, refl, sym, ap, ◌∙◌}
use mathlib.Core.List.{List, [], ◌∷◌, ◌++◌, append_assoc, append-nil}
use mathlib.Core.Option.{some}
use native.Mathlib.Omega.{arith}
use vibelang.Base.Lists.{length, get_elem?, get_or, take, drop, last?, reversed}

module _ {ℓ} {A : Type ℓ} where
  drop_nil : (n : ℕ) → drop {A = A} n [] ≡ []
  drop_nil zero = refl
  drop_nil (suc n) = refl

  pub drop-drop : (m n : ℕ) (xs : List A) → drop (m + n) xs ≡ drop n (drop m xs)
  drop-drop zero n xs = ap (λ (k : ℕ). drop k xs) (omega arith)
  drop-drop (suc m) n [] = drop_nil (suc m + n) ∙ sym (drop_nil n)
  drop-drop (suc m) n (x ∷ xs) =
      ap (λ (k : ℕ). drop k (x ∷ xs)) {y = suc (m + n)} (omega arith) ∙ drop-drop m n xs

  pub drop-suc : (n : ℕ) (xs : List A) → drop (suc n) xs ≡ drop 1 (drop n xs)
  drop-suc n xs = ap (λ (k : ℕ). drop k xs) {x = suc n} {y = n + 1} (omega arith) ∙ drop-drop n 1 xs

  pub get_elem?-drop :
      (n : ℕ) (xs : List A) {y : A} {ys : List A} → drop n xs ≡ y ∷ ys → get_elem? xs n ≡ some y
  get_elem?-drop zero [] h = absurd (cc h)
  get_elem?-drop zero (x ∷ xs) h = cc h
  get_elem?-drop (suc n) [] h = absurd (cc h)
  get_elem?-drop (suc n) (x ∷ xs) h = get_elem?-drop n xs h

  pub get_or-drop : (n i : ℕ) (xs : List A) (d : A) → get_or (drop n xs) i d ≡ get_or xs (n + i) d
  get_or-drop zero i xs d = ap (λ (k : ℕ). get_or xs k d) (omega arith)
  get_or-drop (suc n) i [] d = refl
  get_or-drop (suc n) i (x ∷ xs) d =
      get_or-drop n i xs d ∙ ap (λ (k : ℕ). get_or (x ∷ xs) k d) {x = suc (n + i)} (omega arith)

  pub length-drop : (n : ℕ) (xs : List A) → length (drop n xs) ≡ length xs - n
  length-drop zero xs = omega arith
  length-drop (suc n) [] = omega arith
  length-drop (suc n) (x ∷ xs) = omega (arith, length-drop n xs)

  pub drop-append : (xs ys : List A) → drop (length xs) (xs ++ ys) ≡ ys
  drop-append [] ys = refl
  drop-append (x ∷ xs) ys = drop-append xs ys

  pub take-append : (xs ys : List A) → take (length xs) (xs ++ ys) ≡ xs
  take-append [] ys = refl
  take-append (x ∷ xs) ys = ap (◌∷◌ x) (take-append xs ys)

  pub take-drop : (n : ℕ) (xs : List A) → take n xs ++ drop n xs ≡ xs
  take-drop zero xs = refl
  take-drop (suc n) [] = refl
  take-drop (suc n) (x ∷ xs) = ap (◌∷◌ x) (take-drop n xs)

  pub length-take : (n : ℕ) (xs : List A) → n ≤ length xs → length (take n xs) ≡ n
  length-take zero xs h = refl
  length-take (suc n) [] h = elim h [ ]
  length-take (suc n) (x ∷ xs) h = ap suc (length-take n xs (omega arith))

  pub last?-take : (n : ℕ) (xs : List A) → n < length xs → last? (take (suc n) xs) ≡ get_elem? xs n
  last?-take n [] h = elim h [ ]
  last?-take zero (x ∷ xs) h = refl
  last?-take (suc n) (x ∷ []) h = absurd (omega arith)
  last?-take (suc n) (x ∷ y ∷ xs) h = last?-take n (y ∷ xs) (omega arith)

  pub last?-append : (xs : List A) (x : A) → last? (xs ++ x ∷ []) ≡ some x
  last?-append [] x = refl
  last?-append (y ∷ []) x = refl
  last?-append (y ∷ z ∷ xs) x = last?-append (z ∷ xs) x

  pub reversed_onto : (xs ys zs : List A) → reversed xs (ys ++ zs) ≡ reversed xs ys ++ zs
  reversed_onto [] ys zs = refl
  reversed_onto (x ∷ xs) ys zs = reversed_onto xs (x ∷ ys) zs

  pub reversed-append : (xs ys : List A) → reversed (xs ++ ys) [] ≡ reversed ys [] ++ reversed xs []
  reversed-append [] ys = sym (append-nil (reversed ys []))
  reversed-append (x ∷ xs) ys =
      reversed_onto (xs ++ ys) [] (x ∷ [])
      ∙ ap (λ (zs : List A). zs ++ x ∷ []) (reversed-append xs ys)
      ∙ append_assoc (reversed ys []) (reversed xs []) (x ∷ [])
      ∙ ap (◌++◌ (reversed ys [])) (sym (reversed_onto xs [] (x ∷ [])))

  pub reversed-reversed : (xs : List A) → reversed (reversed xs []) [] ≡ xs
  reversed-reversed [] = refl
  reversed-reversed (x ∷ xs) =
      ap (λ (ys : List A). reversed ys []) (reversed_onto xs [] (x ∷ []))
      ∙ reversed-append (reversed xs []) (x ∷ [])
      ∙ ap (◌∷◌ x) (reversed-reversed xs)
