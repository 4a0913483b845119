-- ===== src/Lexer/Scan/Extent.antt =====
-- src/lexer.rs, the scanners: a token takes at least one byte, takes bytes that are there, and, but
-- for a character literal of a bare newline, stays on its line.
use vibelang.Base.{
  is_digit, ℕ, suc, ◌+◌, ◌<◌, Text, true, false, ◌&&◌, ◌||◌, [], ◌∷◌, ◌≡◌, refl, subst, arith, ◌==◌,
  drop, count_while, Bool-cases, Option-cases, inl, inr, Covers, no_items, one_more, Covers-add,
}
use vibelang.Lexer.{Tok}
use vibelang.Lexer.Scan.{
  took, at, is_alpha, in_number, number, escaped, character, closing, starts_with, scan,
}
use vibelang.Lexer.Scan.Words.{
  in_line, bare_newline, Extent, number_in_line, count_while-Covers, first_counts, took-eq,
  first_Covers, int_token-eq, symbol-Extent, word-Extent,
}
use vibelang.Lexer.Scan.Strings.{escaped_line, string-Extent}

closing-eq :
    (c k : ℕ) (rest : Text) {t : Tok} {n : ℕ}
    → closing c k rest ≡ took t n
    → (at k rest ≡ b'\'') × (suc k ≡ n)
unfolding closing
closing-eq c k rest h = elim (Bool-cases (at k rest == b'\'')) [
  | inl y ↦ (ground (arith, y), took-eq (rw y at h))
  | inr n ↦ absurd (cc (rw n at h))
]

module _ (parse_f64 : Text → ℕ) where
  number-Extent :
      (rest : Text) {t : Tok} {n : ℕ}
      → is_digit (at 0 rest) ≡ true
      → number parse_f64 rest ≡ took t n
      → Extent rest n
  unfolding number
  number-Extent rest {n = n} d h =
      let k = count_while in_number rest in
      let after = drop k rest in
      let first : 0 < k = first_counts in_number rest (ground (arith, d)) refl in
      let whole = count_while-Covers in_number rest number_in_line in
      elim (Bool-cases (at 0 after == b'.' && is_digit (at 1 after))) [
        | inl point ↦
            let e : k + suc (count_while in_number (drop 1 after)) ≡ n = took-eq (rw point at h) in
            let dot = first_Covers after 45 (ground (arith, point)) refl in
            let tail = count_while-Covers in_number (drop 1 after) number_in_line in
            (
              omega (arith, first, e),
              subst (λ (m : ℕ). Covers in_line m rest) (omega (arith, e))
                  (Covers-add whole (Covers-add dot tail)),
            )
        | inr no_point ↦
            let e : k ≡ n = int_token-eq _ k (rw no_point at h) in
            (omega (arith, first, e), rw (← e) whole)
      ]

three_bytes :
    (rest : Text)
    → in_line (at 0 rest) ≡ true
    → in_line (at 1 rest) ≡ true
    → at 2 rest ≡ b'\''
    → Covers in_line 3 rest
three_bytes [] a b e = absurd (omega (arith, e))
three_bytes (c ∷ []) a b e = absurd (omega (arith, e))
three_bytes (c ∷ d ∷ []) a b e = absurd (omega (arith, e))
three_bytes (c ∷ d ∷ f ∷ rest) a b e = one_more a (one_more b (one_more (rw e refl) no_items))

not_bare :
    (rest : Text)
    → at 0 rest ≡ b'\''
    → at 2 rest ≡ b'\''
    → starts_with bare_newline rest ≡ false
    → in_line (at 1 rest) ≡ true
unfolding starts_with
not_bare [] a e bare = absurd (omega (arith, a))
not_bare (c ∷ []) a e bare = absurd (omega (arith, e))
not_bare (c ∷ d ∷ []) a e bare = absurd (omega (arith, e))
not_bare (c ∷ d ∷ f ∷ rest) a e bare = ground (arith, a, e, bare)

quote_line : (c : ℕ) → c ≡ b'\'' → in_line c ≡ true
quote_line c e = rw e refl

four_bytes :
    (rest : Text)
    → in_line (at 0 rest) ≡ true
    → in_line (at 1 rest) ≡ true
    → in_line (at 2 rest) ≡ true
    → at 3 rest ≡ b'\''
    → Covers in_line 4 rest
four_bytes [] a b c e = absurd (omega (arith, e))
four_bytes (x ∷ rest) a b c e = one_more a (three_bytes rest b c e)

character-Extent :
    (rest : Text) {t : Tok} {n : ℕ}
    → (at 0 rest == b'\'') ≡ true
    → starts_with bare_newline rest ≡ false
    → character rest ≡ took t n
    → Extent rest n
unfolding character
character-Extent rest {n = n} d bare h =
    let q : at 0 rest ≡ b'\'' = ground (arith, d) in
    elim (Bool-cases (at 1 rest == b'\\')) [
      | inl escape ↦ elim (Option-cases (escaped (at 2 rest))) [
        | inl unknown ↦ absurd (cc (rw (escape, unknown) at h))
        | inr (x, known) ↦
            let (e, size) = closing-eq x 3 rest (rw (escape, known) at h) in
            let b : at 1 rest ≡ b'\\' = ground (arith, escape) in
            (
              omega (arith, size),
              rw (← size) (four_bytes rest (quote_line _ q) (rw b refl) (escaped_line _ x known) e),
            )
      ]
      | inr no_escape ↦
          let (e, size) = closing-eq (at 1 rest) 2 rest (rw no_escape at h) in
          (
            omega (arith, size),
            rw (← size) (three_bytes rest (quote_line _ q) (not_bare rest q e bare) e),
          )
    ]

bare_first : (rest : Text) → starts_with bare_newline rest ≡ true → at 0 rest ≡ b'\''
unfolding starts_with
bare_first [] h = absurd (cc h)
bare_first (c ∷ rest) h = ground (arith, h)

-- The same without the line, for any bytes: a character literal takes at least one byte.
character-positive : (rest : Text) {t : Tok} {n : ℕ} → character rest ≡ took t n → 0 < n
unfolding character
character-positive rest h = elim (Bool-cases (at 1 rest == b'\\')) [
  | inl escape ↦ elim (Option-cases (escaped (at 2 rest))) [
    | inl unknown ↦ absurd (cc (rw (escape, unknown) at h))
    | inr (x, known) ↦ omega (arith, (closing-eq x 3 rest (rw (escape, known) at h)).1)
  ]
  | inr no_escape ↦ omega (arith, (closing-eq (at 1 rest) 2 rest (rw no_escape at h)).1)
]

module _ (parse_f64 : Text → ℕ) where
  pub scan-Extent :
      (rest : Text) {t : Tok} {n : ℕ}
      → starts_with bare_newline rest ≡ false
      → scan parse_f64 rest ≡ took t n
      → Extent rest n
  unfolding scan
  scan-Extent rest bare h = elim (Bool-cases (is_digit (at 0 rest))) [
    | inl a ↦ number-Extent parse_f64 rest a (rw a at h)
    | inr a ↦ elim (Bool-cases (at 0 rest == b'"')) [
      | inl b ↦ string-Extent rest b (rw (a, b) at h)
      | inr b ↦ elim (Bool-cases (at 0 rest == b'\'')) [
        | inl c ↦ character-Extent rest c bare (rw (a, b, c) at h)
        | inr c ↦ elim (Bool-cases (is_alpha (at 0 rest) || at 0 rest == b'_')) [
          | inl d ↦ word-Extent rest d (rw (a, b, c, d) at h)
          | inr d ↦ symbol-Extent rest (rw (a, b, c, d) at h)
        ]
      ]
    ]
  ]

  pub scan-positive : (rest : Text) {t : Tok} {n : ℕ} → scan parse_f64 rest ≡ took t n → 0 < n
  unfolding scan
  scan-positive rest h = elim (Bool-cases (starts_with bare_newline rest)) [
    | inr bare ↦ (scan-Extent rest bare h).0
    | inl newline ↦ character-positive rest (rw (bare_first rest newline) at h)
  ]
