-- ===== src/Types/Distance/Least.antt =====
-- src/types.rs, `edit_distance`: it is the least number of edits between the two texts.
use vibelang.Base.{
  ℕ, suc, ◌+◌, ◌≤◌, Text, [], ◌∷◌, ◌++◌, ◌≡◌, refl, ap, subst, ◌∙◌, arith, ◌==◌, leb, length,
  Bool-cases, inl, inr,
}
use vibelang.Types.Distance.{min, cost, edit_distance}
use vibelang.Types.Distance.Table.{distance, reverse, edit_distance-distance}

-- The first text is turned into the second with this many edits.
pub data Edits : Text → Text → ℕ → Type 0 where
  nothing : Edits [] [] 0
  keep : {c : ℕ} {s t : Text} {n : ℕ} → Edits s t n → Edits (c ∷ s) (c ∷ t) n
  change : {c d : ℕ} {s t : Text} {n : ℕ} → Edits s t n → Edits (c ∷ s) (d ∷ t) (suc n)
  insert : {d : ℕ} {s t : Text} {n : ℕ} → Edits s t n → Edits s (d ∷ t) (suc n)
  delete : {c : ℕ} {s t : Text} {n : ℕ} → Edits s t n → Edits (c ∷ s) t (suc n)

all_inserted : (t : Text) → Edits [] t (length t)
all_inserted [] = Edits.nothing
all_inserted (d ∷ t) = Edits.insert (all_inserted t)

all_deleted : (s : Text) → Edits s [] (length s)
all_deleted [] = Edits.nothing
all_deleted (c ∷ s) = Edits.delete (all_deleted s)

last_kept : (c d : ℕ) {s t : Text} {n : ℕ} → Edits s t n → Edits (c ∷ s) (d ∷ t) (n + cost c d)
last_kept c d {s} {t} {n} e = elim (Bool-cases (c == d)) [
  | inl same ↦
      let q : c ≡ d = ground (arith, same) in
      let k : n ≡ n + cost c d = ground (arith, same) in
      subst (λ (m : ℕ). Edits (c ∷ s) (d ∷ t) m) k (rw q (Edits.keep e))
  | inr other ↦
      let k : suc n ≡ n + cost c d = ground (arith, other) in
      subst (λ (m : ℕ). Edits (c ∷ s) (d ∷ t) m) k (Edits.change e)
]

min_of : (P : ℕ → Type 0) (m n : ℕ) → P m → P n → P (min m n)
min_of P m n p q = elim (Bool-cases (leb m n)) [ inl a ↦ rw a p | inr b ↦ rw b q ]

distance-Edits : (s t : Text) → Edits s t (distance s t)
unfolding distance
distance-Edits [] t = all_inserted t
distance-Edits (c ∷ s) [] = all_deleted (c ∷ s)
distance-Edits (c ∷ s) (d ∷ t) =
    min_of (Edits (c ∷ s) (d ∷ t)) _ _
      (min_of (Edits (c ∷ s) (d ∷ t)) (distance s (d ∷ t) + 1) (distance (c ∷ s) t + 1)
        (subst (Edits (c ∷ s) (d ∷ t)) (omega arith) (Edits.delete (distance-Edits s (d ∷ t))))
        (subst (Edits (c ∷ s) (d ∷ t)) (omega arith) (Edits.insert (distance-Edits (c ∷ s) t))))
      (last_kept c d (distance-Edits s t))

distance-delete : (c : ℕ) (s t : Text) → distance (c ∷ s) t ≤ suc (distance s t)
unfolding distance
distance-delete c [] [] = omega arith
distance-delete c (b ∷ s) [] = omega arith
distance-delete c s (d ∷ t) = ground arith

distance-insert : (d : ℕ) (s t : Text) → distance s (d ∷ t) ≤ suc (distance s t)
unfolding distance
distance-insert d [] t = omega arith
distance-insert d (c ∷ s) t = ground arith

distance-change : (c d : ℕ) (s t : Text) → distance (c ∷ s) (d ∷ t) ≤ distance s t + cost c d
unfolding distance
distance-change c d s t = ground arith

distance-le : {s t : Text} {n : ℕ} → Edits s t n → distance s t ≤ n
unfolding distance
distance-le Edits.nothing = omega arith
distance-le (Edits.keep {c} {s} {t} e) = ground (arith, distance-change c c s t, distance-le e)
distance-le (Edits.change {c} {d} {s} {t} e) =
    ground (arith, distance-change c d s t, distance-le e)
distance-le (Edits.insert {d} {s} {t} e) = omega (arith, distance-insert d s t, distance-le e)
distance-le (Edits.delete {c} {s} {t} e) = omega (arith, distance-delete c s t, distance-le e)

reverse-Edits :
    {s t u v : Text} {n m : ℕ}
    → Edits s t n
    → Edits u v m
    → Edits (reverse s u) (reverse t v) (n + m)
unfolding reverse
reverse-Edits {m = m} Edits.nothing f = subst (Edits _ _) (omega arith) f
reverse-Edits (Edits.keep e) f = reverse-Edits e (Edits.keep f)
reverse-Edits (Edits.change e) f =
    subst (Edits _ _) (omega arith) (reverse-Edits e (Edits.change f))
reverse-Edits (Edits.insert e) f =
    subst (Edits _ _) (omega arith) (reverse-Edits e (Edits.insert f))
reverse-Edits (Edits.delete e) f =
    subst (Edits _ _) (omega arith) (reverse-Edits e (Edits.delete f))

reverse-reverse : (s t u : Text) → reverse (reverse s t) u ≡ reverse t (s ++ u)
unfolding reverse
reverse-reverse [] t u = refl
reverse-reverse (c ∷ s) t u = reverse-reverse s (c ∷ t) u

append_nil : (s : Text) → s ++ [] ≡ s
append_nil [] = refl
append_nil (c ∷ s) = ap (◌∷◌ c) (append_nil s)

restored : (s : Text) → reverse (reverse s []) [] ≡ s
unfolding reverse
restored s = reverse-reverse s [] [] ∙ append_nil s

-- The first text can be turned into the second with as many edits as `edit_distance` says.
pub edit_distance-Edits : (a b : Text) → Edits a b (edit_distance a b)
edit_distance-Edits a b =
    let e = reverse-Edits (distance-Edits (reverse a []) (reverse b [])) Edits.nothing in
    rw edit_distance-distance
      (subst (λ (n : ℕ). Edits a b n) (omega arith) (rw (restored a, restored b) at e))

-- No sequence of edits that turns the first text into the second is shorter than `edit_distance`.
pub edit_distance-le : (a b : Text) (n : ℕ) → Edits a b n → edit_distance a b ≤ n
edit_distance-le a b n e =
    rw edit_distance-distance (omega (arith, distance-le (reverse-Edits e Edits.nothing)))
