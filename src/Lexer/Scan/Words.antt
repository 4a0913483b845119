-- ===== src/Lexer/Scan/Words.antt =====
-- src/lexer.rs, `word` and `symbol`: a token takes at least one byte, takes bytes that are there, and
-- stays on its line.
use vibelang.Base.{
  ℕ, suc, ◌+◌, ◌-◌, ◌^◌, ◌<◌, Text, Bool, true, false, not, ◌&&◌, ◌||◌, [], ◌∷◌, ◌≡◌, refl, ap, ◌∙◌,
  subst, arith, codes, ◌==◌, leb, length, take, drop, count_while, find, find-eq-some, all-In, all,
  text_eq, Bool-cases, Option-cases, inl, inr, and_true, Covers, no_items, one_more, Covers-add,
  Covers-weaken, Covers-count_while, get_or-drop,
}
use vibelang.Lexer.{Tok, symbols}
use vibelang.Lexer.Scan.{
  took, at, is_alpha, in_number, in_word, int_token, word, starts_with, symbol,
}

abbrev pub in_line : ℕ → Bool
in_line c = not (c == 10)

-- `'`, a newline, `'`.
abbrev pub bare_newline : Text
bare_newline = b'\'' ∷ 10 ∷ b'\'' ∷ []

-- A token of `n` bytes of a line.
abbrev pub Extent : Text → ℕ → Type 0
Extent rest n = (0 < n) × Covers in_line n rest

pub number_in_line : (c : ℕ) → in_number c ≡ true → in_line c ≡ true
number_in_line c h = ground arith

word_in_line : (c : ℕ) → in_word c ≡ true → in_line c ≡ true
word_in_line c h = ground arith

pub count_while-Covers :
    (p : ℕ → Bool) (rest : Text)
    → ((c : ℕ) → p c ≡ true → in_line c ≡ true)
    → Covers in_line (count_while p rest) rest
count_while-Covers p rest w = Covers-weaken w (Covers-count_while p rest)

pub first_counts :
    (p : ℕ → Bool) (rest : Text) → p (at 0 rest) ≡ true → p 0 ≡ false → 0 < count_while p rest
first_counts p [] h z = absurd (cc (h, z))
first_counts p (c ∷ rest) h z = rw h (omega arith)

pub took-eq : {t u : Tok} {m n : ℕ} → took t m ≡ took u n → m ≡ n
took-eq h = cc

-- A first byte that is no 0 is there.
pub first_Covers :
    (rest : Text) (c : ℕ) → at 0 rest ≡ suc c → in_line (suc c) ≡ true → Covers in_line 1 rest
first_Covers [] c h l = absurd (omega (arith, h))
first_Covers (d ∷ rest) c h l = one_more (rw h l) no_items

pub int_token-eq : (v m : ℕ) {t : Tok} {n : ℕ} → int_token v m ≡ took t n → m ≡ n
unfolding int_token
int_token-eq v m h = elim (Bool-cases (leb v (2 ^ 64 - 1))) [
  | inl fits ↦ took-eq (rw fits at h)
  | inr big ↦ absurd (cc (rw big at h))
]

starts_with-Covers :
    (s rest : Text)
    → starts_with s rest ≡ true
    → all in_line s ≡ true
    → Covers in_line (length s) rest
unfolding starts_with
starts_with-Covers [] rest h l = no_items
starts_with-Covers (c ∷ s) [] h l = absurd (cc h)
starts_with-Covers (c ∷ s) (d ∷ rest) h l =
    let (same, more) = and_true (c == d) (starts_with s rest) h in
    let (now, later) = and_true (in_line c) (all in_line s) l in
    one_more (ground (arith, same, now)) (starts_with-Covers s rest more later)

some_byte : (s : Text) → not (length s == 0) ≡ true → 0 < length s
some_byte s h = ground (arith, h)

symbol_ok : Text → Bool
symbol_ok s = all in_line s && not (length s == 0)

symbols_ok : all symbol_ok symbols ≡ true
unfolding symbol_ok
symbols_ok = refl

pub symbol-Extent : (rest : Text) {t : Tok} {n : ℕ} → symbol rest ≡ took t n → Extent rest n
unfolding symbol symbol_ok
symbol-Extent rest {n = n} h = elim (Option-cases (find (λ s. starts_with s rest) symbols)) [
  | inl nothing ↦ absurd (cc (rw (symbol, nothing) at h))
  | inr (s, found) ↦
      let e : length s ≡ n = took-eq (rw (symbol, found) at h) in
      let (listed, here) = find-eq-some (λ s. starts_with s rest) symbols found in
      let (line, long) = and_true (all in_line s) _ (all-In symbol_ok symbols_ok listed) in
      (rw (← e) (some_byte s long), rw (← e) (starts_with-Covers s rest here line))
]

pub word-Extent :
    (rest : Text) {t : Tok} {n : ℕ}
    → (is_alpha (at 0 rest) || at 0 rest == b'_') ≡ true
    → word rest ≡ took t n
    → Extent rest n
unfolding word
word-Extent rest {n = n} d h =
    let k = count_while in_word rest in
    let first : 0 < k = first_counts in_word rest (ground (arith, d)) refl in
    let whole = count_while-Covers in_word rest word_in_line in
    elim (Bool-cases (text_eq (take k rest) (codes "E") && at k rest == b'!')) [
      | inl effect ↦
          let e : suc k ≡ n = took-eq (rw effect at h) in
          let bang : at k rest ≡ 33 = ground (arith, effect) in
          let mark =
            first_Covers (drop k rest) 32
              (get_or-drop k 0 rest 0 ∙ ap (λ (i : ℕ). at i rest) {x = k + 0} (omega arith) ∙ bang)
              refl in
          (
            omega (arith, e),
            subst (λ (m : ℕ). Covers in_line m rest) (omega (arith, e)) (Covers-add whole mark),
          )
      | inr other ↦
          let e : k ≡ n = took-eq (rw other at h) in (omega (arith, first, e), rw (← e) whole)
    ]
