-- ===== src/Types/Distance/Table.antt =====
-- src/types.rs, `edit_distance`: each row of the table holds the distances of a prefix of the first
-- text from every prefix of the second. A prefix is held backwards, with its last character first.
use vibelang.Base.{ℕ, suc, ◌+◌, Text, List, [], ◌∷◌, ◌≡◌, refl, ap, ◌∙◌, length, get_or}
use vibelang.Types.Distance.{min, cost, first_row, fill, rows, edit_distance}

-- The distance by recursion on both texts.
unfoldable pub distance : Text → Text → ℕ
distance [] ds = length ds
distance (c ∷ cs) [] = suc (length cs)
distance (c ∷ cs) (d ∷ ds) =
    min (min (distance cs (d ∷ ds) + 1) (distance (c ∷ cs) ds + 1)) (distance cs ds + cost c d)

-- `reverse s t` is `s` backwards, then `t`.
unfoldable pub reverse : Text → Text → Text
reverse [] t = t
reverse (c ∷ s) t = reverse s (c ∷ t)

-- A row: the second text is `t` backwards followed by the rest.
row : Text → Text → Text → List ℕ
unfolding distance
row s t [] = distance s t ∷ []
row s t (d ∷ ds) = distance s t ∷ row s (d ∷ t) ds

first_row-row : (n : ℕ) (t ds : Text) → length t ≡ n → first_row n ds ≡ row [] t ds
unfolding first_row row
first_row-row n t [] h = rw h
first_row-row n t (d ∷ ds) h = cc (h, first_row-row (suc n) (d ∷ t) ds (ap suc h))

fill-row :
    (c : ℕ) (s t ds : Text)
    → distance (c ∷ s) t ∷ fill c (distance (c ∷ s) t) (row s t ds) ds ≡ row (c ∷ s) t ds
unfolding fill row
fill-row c s t [] = refl
fill-row c s t (d ∷ []) = refl
fill-row c s t (d ∷ e ∷ ds) = ap (◌∷◌ (distance (c ∷ s) t)) (fill-row c s (d ∷ t) (e ∷ ds))

rows-row :
    (i : ℕ) (cs s b : Text)
    → i ≡ suc (length s)
    → rows i cs (row s [] b) b ≡ row (reverse cs s) [] b
unfolding rows reverse distance
rows-row i [] s b h = refl
rows-row i (c ∷ cs) s b h =
    let e : i ∷ fill c i (row s [] b) b ≡ row (c ∷ s) [] b = rw h (fill-row c s [] b) in
    ap (λ (r : List ℕ). rows (suc i) cs r b) e ∙ rows-row (suc i) cs (c ∷ s) b (ap suc h)

last-row : (s t ds : Text) → get_or (row s t ds) (length ds) 0 ≡ distance s (reverse ds t)
unfolding row reverse
last-row s t [] = refl
last-row s t (d ∷ ds) = last-row s (d ∷ t) ds

-- The table computes the distance of the two texts read backwards.
pub edit_distance-distance :
    (a b : Text) → edit_distance a b ≡ distance (reverse a []) (reverse b [])
unfolding edit_distance
edit_distance-distance a b =
    ap (λ (r : List ℕ). get_or (rows 1 a r b) (length b) 0) (first_row-row 0 [] b refl)
    ∙ ap (λ (r : List ℕ). get_or r (length b) 0) (rows-row 1 a [] b refl)
    ∙ last-row (reverse a []) [] b
