-- ===== src/Patch/Trims.antt =====
-- src/patch.rs and `trim_end`: what is left when the white space or the newlines at an end are cut off.
use vibelang.Base.{
  ℕ, zero, suc, Text, false, some, [], ◌∷◌, ◌++◌, ◌≡◌, ◌≢◌, refl, sym, ap, ◌∙◌, arith, ◌==◌, last?,
  reversed, last?-append, reversed_onto, reversed-append, reversed-reversed, Bool-cases, inl, inr,
}
use vibelang.Lexer.Run.{space_bytes, trim_front, trim_end}
use vibelang.Patch.{drop_newline, without_newlines}

-- What does not start, or does not end, with a newline.
abbrev pub NoNewlineFirst : Text → Type 0
NoNewlineFirst [] = Unit
NoNewlineFirst (c ∷ s) = (c == 10) ≡ false

abbrev pub NoNewlineLast : Text → Type 0
NoNewlineLast s = last? s ≢ some 10

last-reversed : (s : Text) → NoNewlineFirst s → NoNewlineLast (reversed s [])
last-reversed [] h e = cc e
last-reversed (c ∷ s) h e =
    let q : some c ≡ some 10 =
      sym (last?-append (reversed s []) c) ∙ ap last? (sym (reversed_onto s [] (c ∷ []))) ∙ e in
    ground (arith, q)

first-reversed : (s t : Text) → reversed s [] ≡ t → NoNewlineLast s → NoNewlineFirst t
first-reversed s [] q h = tt
first-reversed s (c ∷ t) q h = elim (Bool-cases (c == 10)) [
  | inr n ↦ n
  | inl y ↦
      let ten : c ≡ 10 = ground (arith, y) in
      let back : s ≡ reversed t [] ++ c ∷ [] =
        sym (reversed-reversed s)
        ∙ ap (λ (u : Text). reversed u []) q
        ∙ reversed_onto t [] (c ∷ []) in
      absurd (h (ap last? back ∙ last?-append (reversed t []) c ∙ ap some ten))
]

drop_newline_lem : (s : Text) → NoNewlineFirst s → drop_newline s ≡ s
unfolding drop_newline
drop_newline_lem [] h = refl
drop_newline_lem (c ∷ s) h = rw h refl

-- Nothing is cut off a text that does not end in a newline.
pub without_newlines_lem : (s : Text) → NoNewlineLast s → without_newlines s ≡ s
unfolding without_newlines
without_newlines_lem s h =
    ap (λ (u : Text). reversed u []) (drop_newline_lem (reversed s []) (first-reversed s _ refl h))
    ∙ reversed-reversed s

space_bytes-newline : (c : ℕ) (s : Text) → space_bytes (c ∷ s) ≡ 0 → (c == 10) ≡ false
unfolding space_bytes
space_bytes-newline c [] h = ground (arith, h)
space_bytes-newline c (b ∷ []) h = ground (arith, h)
space_bytes-newline c (b ∷ a ∷ s) h = ground (arith, h)

trim_front-first : (k : ℕ) (s : Text) → NoNewlineFirst (trim_front k s)
unfolding trim_front
trim_front-first k [] = tt
trim_front-first (suc k) (c ∷ s) = trim_front-first k s
trim_front-first zero (c ∷ s) = by_bytes _ (λ (n : ℕ). trim_front-first n s) refl
  where
    by_bytes :
        (n : ℕ)
        → ((k : ℕ) → NoNewlineFirst (trim_front k s))
        → space_bytes (c ∷ s) ≡ n
        → NoNewlineFirst (trim_front 0 (c ∷ s))
    by_bytes zero ih e = rw (trim_front, e) (space_bytes-newline c s e)
    by_bytes (suc n) ih e = rw (trim_front, e) (ih n)

-- A text that is what a front part and `t` make.
abbrev Suffix : Text → Text → Type 0
Suffix t s = (u : Text) × (s ≡ u ++ t)

trim_front-Suffix : (k : ℕ) (s : Text) → Suffix (trim_front k s) s
unfolding trim_front
trim_front-Suffix k [] = ([], refl)
trim_front-Suffix (suc k) (c ∷ s) = let (u, e) = trim_front-Suffix k s in (c ∷ u, ap (◌∷◌ c) e)
trim_front-Suffix zero (c ∷ s) = by_bytes _ (λ (n : ℕ). trim_front-Suffix n s) refl
  where
    by_bytes :
        (n : ℕ)
        → ((k : ℕ) → Suffix (trim_front k s) s)
        → space_bytes (c ∷ s) ≡ n
        → Suffix (trim_front 0 (c ∷ s)) (c ∷ s)
    by_bytes zero ih e = rw (trim_front, e) ([], refl)
    by_bytes (suc n) ih e = let (u, q) = ih n in rw (trim_front, e) (c ∷ u, ap (◌∷◌ c) q)

-- What `trim_end` leaves is the front of the text and does not end in a newline.
pub trim_end-front : (s : Text) → (u : Text) × (s ≡ trim_end s ++ u)
unfolding trim_end
trim_end-front s =
    let (u, e) = trim_front-Suffix 0 (reversed s []) in
    (
      reversed u [],
      sym (reversed-reversed s)
          ∙ ap (λ (t : Text). reversed t []) e
          ∙ reversed-append u (trim_front 0 (reversed s [])),
    )

pub trim_end-last : (s : Text) → NoNewlineLast (trim_end s)
unfolding trim_end
trim_end-last s = last-reversed (trim_front 0 (reversed s [])) (trim_front-first 0 (reversed s []))
