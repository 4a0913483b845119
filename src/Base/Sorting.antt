-- ===== src/Base/Sorting.antt =====
-- `sort` and `dedup` of a vector, on a strict order given as a test.
use mathlib.Core.Path.{◌≡◌, refl, sym, ap, ◌∙◌}
use mathlib.Core.Logic.{◌⊎◌, inl, inr}
use mathlib.Core.List.{List, [], ◌∷◌}
use mathlib.Core.Bool.{Bool, true, false, ◌&&◌, ◌||◌}
use native.Mathlib.Omega.{arith}
use vibelang.Base.Tests.{◌==◌, ltb, if◌then◌else◌, Bool-cases}
use vibelang.Base.Lists.{In, here, there, In-cons}
use vibelang.Base.Texts.{Text, text_eq}

module _ {ℓ} {A : Type ℓ} (lt : A → A → Bool) where
  unfoldable pub insert : A → List A → List A
  insert x [] = x ∷ []
  insert x (y ∷ ys) = if lt y x then y ∷ insert x ys else x ∷ y ∷ ys

  -- `sort`.
  unfoldable pub sort : List A → List A
  unfolding insert
  sort [] = []
  sort (x ∷ xs) = insert x (sort xs)

  -- No element is less than the one before it.
  pub data IsSorted : List A → Type ℓ where
    sorted_nil : IsSorted []
    sorted_one : {x : A} → IsSorted (x ∷ [])
    sorted_more :
        {x y : A} {ys : List A} → lt y x ≡ false → IsSorted (y ∷ ys) → IsSorted (x ∷ y ∷ ys)

  -- Every element is less than the next.
  pub data IsAscending : List A → Type ℓ where
    ascending_nil : IsAscending []
    ascending_one : {x : A} → IsAscending (x ∷ [])
    ascending_more :
        {x y : A} {ys : List A} → lt x y ≡ true → IsAscending (y ∷ ys) → IsAscending (x ∷ y ∷ ys)

module _ {ℓ} {A : Type ℓ} (eq : A → A → Bool) where
  -- `dedup`.
  unfoldable pub dedup : List A → List A
  dedup [] = []
  dedup (x ∷ []) = x ∷ []
  dedup (x ∷ y ∷ ys) = let rest = dedup (y ∷ ys) in if eq x y then rest else x ∷ rest

module _ {ℓ} {A : Type ℓ} (lt : A → A → Bool) where
  In-insert : {z : A} (x : A) (ys : List A) → In z (insert lt x ys) → (z ≡ x) ⊎ In z ys
  unfolding insert
  In-insert x [] m = In-cons m
  In-insert x (y ∷ ys) m = elim (Bool-cases (lt y x)) [
    | inr n ↦ In-cons (rw (insert, n) at m)
    | inl less ↦ elim (In-cons (rw (insert, less) at m)) [
      | inl same ↦ rw same (inr here)
      | inr later ↦ elim (In-insert x ys later) [ inl same ↦ inl same | inr old ↦ inr (there old) ]
    ]
  ]

  insert-here : (x : A) (ys : List A) → In x (insert lt x ys)
  unfolding insert
  insert-here x [] = here
  insert-here x (y ∷ ys) = elim (Bool-cases (lt y x)) [
    | inr n ↦ rw (insert, n) here
    | inl less ↦ rw (insert, less) (there (insert-here x ys))
  ]

  insert-there : {z : A} (x : A) (ys : List A) → In z ys → In z (insert lt x ys)
  unfolding insert
  insert-there x [] m = elim m [ ]
  insert-there x (y ∷ ys) m = elim (Bool-cases (lt y x)) [
    | inr n ↦ rw (insert, n) (there m)
    | inl less ↦ elim (In-cons m) [
      | inl same ↦ rw (insert, less, same) here
      | inr later ↦ rw (insert, less) (there (insert-there x ys later))
    ]
  ]

  pub In-sort : {z : A} (xs : List A) → In z (sort lt xs) → In z xs
  unfolding sort
  In-sort [] m = elim m [ ]
  In-sort (x ∷ xs) m = elim (In-insert x (sort lt xs) m) [
    | inl same ↦ rw same here
    | inr later ↦ there (In-sort xs later)
  ]

  pub sort-In : {z : A} (xs : List A) → In z xs → In z (sort lt xs)
  unfolding sort
  sort-In [] m = elim m [ ]
  sort-In (x ∷ xs) m = elim (In-cons m) [
    | inl same ↦ rw same (insert-here x (sort lt xs))
    | inr later ↦ insert-there x (sort lt xs) (sort-In xs later)
  ]

module _ {ℓ} {A : Type ℓ} {lt : A → A → Bool}
    (asym : (a b : A) → lt a b ≡ true → lt b a ≡ false) where
  insert-IsSorted : (x : A) {ys : List A} → IsSorted lt ys → IsSorted lt (insert lt x ys)
  unfolding insert
  insert-IsSorted x sorted_nil = sorted_one
  insert-IsSorted x (sorted_one {x = y}) = elim (Bool-cases (lt y x)) [
    | inr n ↦ rw n (sorted_more n sorted_one)
    | inl less ↦ rw less (sorted_more (asym y x less) sorted_one)
  ]
  insert-IsSorted x (sorted_more {x = y} {y = z} {ys = zs} h s) = elim (Bool-cases (lt y x)) [
    | inr n ↦ rw n (sorted_more n (sorted_more h s))
    | inl less ↦ rw less (after_first less (insert-IsSorted x s))
  ]
    where
      after_first :
          lt y x ≡ true
          → IsSorted lt (insert lt x (z ∷ zs))
          → IsSorted lt (y ∷ insert lt x (z ∷ zs))
      after_first less t = elim (Bool-cases (lt z x)) [
        | inl before ↦ rw (insert, before) (sorted_more h (rw (insert, before) at t))
        | inr behind ↦ rw (insert, behind) (sorted_more (asym y x less) (rw (insert, behind) at t))
      ]

  pub sort-IsSorted : (xs : List A) → IsSorted lt (sort lt xs)
  unfolding sort
  sort-IsSorted [] = sorted_nil
  sort-IsSorted (x ∷ xs) = insert-IsSorted x (sort-IsSorted xs)

module _ {ℓ} {A : Type ℓ} {eq : A → A → Bool} (eq_lem : (a b : A) → eq a b ≡ true → a ≡ b) where
  -- The first element stays the first.
  dedup-first : (x : A) (xs : List A) → (ys : List A) × (dedup eq (x ∷ xs) ≡ x ∷ ys)
  unfolding dedup
  dedup-first x [] = ([], refl)
  dedup-first x (y ∷ xs) = elim (Bool-cases (eq x y)) [
    | inr n ↦ (dedup eq (y ∷ xs), rw (dedup, n) refl)
    | inl same ↦
        let (ys, e) = dedup-first y xs in
        (ys, rw (dedup, same) (e ∙ ap (λ (z : A). z ∷ ys) (sym (eq_lem x y same))))
  ]

  pub In-dedup : {z : A} (xs : List A) → In z (dedup eq xs) → In z xs
  unfolding dedup
  In-dedup [] m = m
  In-dedup (x ∷ []) m = m
  In-dedup (x ∷ y ∷ xs) m = elim (Bool-cases (eq x y)) [
    | inl same ↦ there (In-dedup (y ∷ xs) (rw (dedup, same) at m))
    | inr n ↦ elim (In-cons (rw (dedup, n) at m)) [
      | inl same ↦ rw same here
      | inr later ↦ there (In-dedup (y ∷ xs) later)
    ]
  ]

  pub dedup-In : {z : A} (xs : List A) → In z xs → In z (dedup eq xs)
  unfolding dedup
  dedup-In [] m = m
  dedup-In (x ∷ []) m = m
  dedup-In {z} (x ∷ y ∷ xs) m = elim (Bool-cases (eq x y)) [
    | inr n ↦ elim (In-cons m) [
      | inl same ↦ rw (dedup, n, same) here
      | inr later ↦ rw (dedup, n) (there (dedup-In (y ∷ xs) later))
    ]
    | inl same ↦
        let later : In z (y ∷ xs) = elim (In-cons m) [
          | inl first ↦ rw (first, eq_lem x y same) here
          | inr later ↦ later
        ] in
        rw (dedup, same) (dedup-In (y ∷ xs) later)
  ]

  pub dedup-IsAscending :
      {lt : A → A → Bool}
      → ((a b : A) → lt a b ≡ false → lt b a ≡ false → eq a b ≡ true)
      → {xs : List A} → IsSorted lt xs
      → IsAscending lt (dedup eq xs)
  unfolding dedup
  dedup-IsAscending total sorted_nil = ascending_nil
  dedup-IsAscending total sorted_one = ascending_one
  dedup-IsAscending {lt} total (sorted_more {x} {y} {ys} h s) = elim (Bool-cases (eq x y)) [
    | inl same ↦ rw same (dedup-IsAscending total s)
    | inr apart ↦ rw apart (before apart (dedup-first y ys) (dedup-IsAscending total s))
  ]
    where
      before :
          eq x y ≡ false
          → (rest : List A) × (dedup eq (y ∷ ys) ≡ y ∷ rest)
          → IsAscending lt (dedup eq (y ∷ ys))
          → IsAscending lt (x ∷ dedup eq (y ∷ ys))
      before apart (rest, e) a =
          let less : lt x y ≡ true = elim (Bool-cases (lt x y)) [
            | inl l ↦ l
            | inr n ↦ cc (apart, total x y n h)
          ] in
          rw e (ascending_more less (rw e at a))

-- The order of texts, byte by byte.
unfoldable pub text_lt : Text → Text → Bool
text_lt [] [] = false
text_lt [] (b ∷ t) = true
text_lt (a ∷ s) [] = false
text_lt (a ∷ s) (b ∷ t) = ltb a b || (a == b && text_lt s t)

pub text_lt_asym : (s t : Text) → text_lt s t ≡ true → text_lt t s ≡ false
unfolding text_lt
text_lt_asym [] [] h = refl
text_lt_asym [] (b ∷ t) h = refl
text_lt_asym (a ∷ s) [] h = cc h
text_lt_asym (a ∷ s) (b ∷ t) h = ground (arith, text_lt_asym s t)

pub text_lt_total : (s t : Text) → text_lt s t ≡ false → text_lt t s ≡ false → text_eq s t ≡ true
unfolding text_lt text_eq
text_lt_total [] [] h k = refl
text_lt_total [] (b ∷ t) h k = cc h
text_lt_total (a ∷ s) [] h k = cc k
text_lt_total (a ∷ s) (b ∷ t) h k = ground (arith, text_lt_total s t)
