-- ===== src/Lexer/Bare.antt =====
-- src/lexer.rs, `character`: the tokens that hold a newline without an escape, after which the lexer's
-- lines are no longer those of the source.
use vibelang.Base.{
  ℕ, Text, Bool, true, false, not, ◌&&◌, List, [], ◌∷◌, ◌++◌, ◌≡◌, refl, sym, ◌∙◌, arith, ◌==◌, any,
  and_true, Bool-cases, inl, inr,
}
use vibelang.Lexer.{Tok, Token, is_newline}
use vibelang.Lexer.Scan.{took, scan, starts_with, character}
use vibelang.Lexer.Scan.Words.{bare_newline}
use vibelang.Lexer.Run.{drop_newlines, next_starts}

bare_tok : Tok → ℕ → Bool
bare_tok (Tok.char c) n = c == 10 && n == 3
bare_tok _ n = false

-- A character literal of a newline that takes 3 bytes, so it is not written `'\\n'`.
unfoldable pub is_bare : Token → Bool
unfolding bare_tok
is_bare t = bare_tok t.tok t.span.len

scan_bare :
    (parse_f64 : Text → ℕ) (rest : Text)
    → scan parse_f64 (bare_newline ++ rest) ≡ took (Tok.char 10) 3
unfolding scan character
scan_bare parse_f64 rest = refl

bare_split : (s : Text) → starts_with bare_newline s ≡ true → (r : Text) × (s ≡ bare_newline ++ r)
unfolding starts_with
bare_split [] h = absurd (cc h)
bare_split (c ∷ []) h = absurd (ground (arith, h))
bare_split (c ∷ d ∷ []) h = absurd (ground (arith, h))
bare_split (c ∷ d ∷ e ∷ r) h =
    let c' : c ≡ b'\'' = ground (arith, h) in
    let d' : d ≡ 10 = ground (arith, h) in
    let e' : e ≡ b'\'' = ground (arith, h) in (r, rw (c', d', e') refl)

-- What is scanned where a quote, a newline and a quote stand is such a token.
pub bare-scan :
    (parse_f64 : Text → ℕ) (s : Text) (t : Token)
    → starts_with bare_newline s ≡ true
    → scan parse_f64 s ≡ took t.tok t.span.len
    → is_bare t ≡ true
unfolding is_bare
bare-scan parse_f64 s t b e =
    let (r, q) = bare_split s b in
    let h : took (Tok.char 10) 3 ≡ took t.tok t.span.len =
      sym (scan_bare parse_f64 r) ∙ (rw q at e) in
    let same : Tok.char 10 ≡ t.tok = cc h in
    let len : 3 ≡ t.span.len = cc h in rw (← same, ← len) refl

module _ (p : Token → Bool) where
  pub any-append_left : (xs ys : List Token) → any p xs ≡ true → any p (xs ++ ys) ≡ true
  any-append_left [] ys h = absurd (cc h)
  any-append_left (x ∷ xs) ys h = elim (Bool-cases (p x)) [
    | inl y ↦ rw y refl
    | inr n ↦ rw n (any-append_left xs ys (rw n at h))
  ]

  pub any-append_last : (xs : List Token) (t : Token) → p t ≡ true → any p (xs ++ t ∷ []) ≡ true
  any-append_last [] t h = rw h refl
  any-append_last (x ∷ xs) t h = elim (Bool-cases (p x)) [
    | inl y ↦ rw y refl
    | inr n ↦ rw n (any-append_last xs t h)
  ]

-- The same for the head and what becomes of the rest.
any-cons_tail :
    (t : Token) (ts us : List Token)
    → (any is_bare ts ≡ true → any is_bare us ≡ true)
    → any is_bare (t ∷ ts) ≡ true
    → any is_bare (t ∷ us) ≡ true
any-cons_tail t ts us f h = elim (Bool-cases (is_bare t)) [
  | inl y ↦ rw y refl
  | inr n ↦ rw n (f (rw n at h))
]

newline_not_bare : (u : Tok) (n : ℕ) → is_newline u ≡ true → bare_tok u n ≡ false
unfolding bare_tok
newline_not_bare Tok.newline n h = refl
newline_not_bare (Tok.char c) n h = absurd (cc h)
newline_not_bare _ n h = absurd (cc h)

-- Dropping newlines drops no such token.
pub any-drop_newlines :
    (ts : List Token) → any is_bare ts ≡ true → any is_bare (drop_newlines ts) ≡ true
unfolding drop_newlines is_bare
any-drop_newlines [] h = h
any-drop_newlines (t ∷ ts) h = elim (Bool-cases (is_newline t.tok && not (next_starts ts))) [
  | inl dropped ↦
      let line : is_newline t.tok ≡ true = (and_true (is_newline t.tok) _ dropped).0 in
      rw dropped (any-drop_newlines ts (rw (newline_not_bare t.tok t.span.len line) at h))
  | inr kept ↦ rw kept (any-cons_tail t ts (drop_newlines ts) (any-drop_newlines ts) h)
]
