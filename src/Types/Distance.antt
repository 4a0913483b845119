-- ===== src/Types/Distance.antt =====
-- src/types.rs, `edit_distance` and `suggest`.
pub mod Table
pub mod Least
pub mod Suggest
mod Examples
use vibelang.Base.{
  ℕ, zero, suc, ◌+◌, Text, Bool, true, false, Option, none, some, List, [], ◌∷◌, ◌==◌, leb, length,
  get_or, if◌then◌else◌, ltb, ◌||◌, ◌&&◌, ◌*◌,
}

-- `usize::min`.
abbrev pub min : ℕ → ℕ → ℕ
min m n = if leb m n then m else n

abbrev pub cost : ℕ → ℕ → ℕ
cost c d = if c == d then 0 else 1

-- `(0..=b.len()).collect()`, from `n` on.
unfoldable pub first_row : ℕ → Text → List ℕ
first_row n [] = n ∷ []
first_row n (d ∷ ds) = n ∷ first_row (suc n) ds

-- The inner loop: `left` is `cur[j - 1]`, and the list starts at `prev[j - 1]`.
unfoldable pub fill : ℕ → ℕ → List ℕ → Text → List ℕ
fill c left (p ∷ q ∷ prev) (d ∷ ds) =
    let v = min (min (q + 1) (left + 1)) (p + cost c d) in v ∷ fill c v (q ∷ prev) ds
fill c left _ _ = []

-- The outer loop, at the row `i`.
unfoldable pub rows : ℕ → Text → List ℕ → Text → List ℕ
unfolding fill
rows i [] prev b = prev
rows i (c ∷ cs) prev b = rows (suc i) cs (i ∷ fill c i prev b) b

-- `edit_distance`.
unfoldable pub edit_distance : Text → Text → ℕ
unfolding first_row rows
edit_distance a b = get_or (rows 1 a (first_row 0 b) b) (length b) 0

-- `str::len`: the bytes of a character, and of a text.
abbrev byte_count : ℕ → ℕ
byte_count c = if ltb c 128 then 1 else if ltb c 2048 then 2 else if ltb c 65536 then 3 else 4

pub byte_length : Text → ℕ
byte_length [] = 0
byte_length (c ∷ s) = byte_count c + byte_length s

-- `d <= 2.max(name.len() / 3)`, written without the division.
unfoldable pub within : Text → Text → Bool
unfolding edit_distance byte_length
within name c = leb (edit_distance name c) 2 || leb (3 * edit_distance name c) (byte_length name)

-- The order of two names, by character.
unfoldable pub text_less : Text → Text → Bool
text_less [] [] = false
text_less [] (d ∷ t) = true
text_less (c ∷ s) [] = false
text_less (c ∷ s) (d ∷ t) = ltb c d || ((c == d) && text_less s t)

-- `(d, c) < (bd, bn)`.
unfoldable pub closer : Text → Text → Text → Bool
unfolding edit_distance text_less
closer name c b =
    let m = edit_distance name c in
    let n = edit_distance name b in ltb m n || ((m == n) && text_less c b)

-- The body of the loop. `best` keeps a name and not its distance, which the name determines.
pub next_best : Text → Option Text → Text → Option Text
unfolding within closer
next_best name none c = if within name c then some c else none
next_best name (some b) c = if within name c && closer name c b then some c else some b

pub best_of : Text → Option Text → List Text → Option Text
unfolding next_best
best_of name best [] = best
best_of name best (c ∷ cs) = best_of name (next_best name best c) cs

-- `suggest`.
unfoldable pub suggest : Text → List Text → Option Text
unfolding best_of
suggest name = best_of name none
