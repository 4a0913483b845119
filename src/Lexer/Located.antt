-- ===== src/Lexer/Located.antt =====
-- src/lexer.rs with src/patch.rs: a token that is found again at the offset of its span.
use vibelang.Base.{
  ℕ, ◌+◌, Text, true, not, ◌&&◌, List, [], ◌∷◌, ◌++◌, ◌≡◌, ap, ◌∙◌, arith, get_or, drop, Bool-cases,
  inl, inr, In, here, there, In-append, In-cons, any, ◌⊎◌,
}
use vibelang.Lexer.{Tok, Token, is_newline}
use vibelang.Lexer.Scan.{took, scan, starts_with}
use vibelang.Lexer.Scan.Words.{bare_newline}
use vibelang.Lexer.Bare.{is_bare, bare-scan, any-append_left, any-append_last}
use vibelang.Lexer.Scan.Extent.{scan-Extent}
use vibelang.Lexer.Run.{Lexer, rest_of, advance, drop_newlines, next_starts, span}
use vibelang.Patch.{line_starts, offset}
use vibelang.Lexer.Position.{At, advance-At, offset-span}

-- The lexer finds the token again at the offset of its span.
pub data Located (parse_f64 : Text → ℕ) (src : Text) (t : Token) : Type 0 where
  scanned :
      scan parse_f64 (drop (offset (line_starts src) t.span) src) ≡ took t.tok t.span.len
      → Located parse_f64 src t
  line_end :
      t.tok ≡ Tok.newline
      → get_or src (offset (line_starts src) t.span) 0 ≡ 10
      → Located parse_f64 src t
  source_end :
      t.tok ≡ Tok.eof → drop (offset (line_starts src) t.span) src ≡ [] → Located parse_f64 src t

pub In-drop_newlines : {t : Token} (ts : List Token) → In t (drop_newlines ts) → In t ts
unfolding drop_newlines
In-drop_newlines [] m = m
In-drop_newlines (u ∷ ts) m = elim (Bool-cases (is_newline u.tok && not (next_starts ts))) [
  | inl dropped ↦ there (In-drop_newlines ts (rw (drop_newlines, dropped) at m))
  | inr kept ↦ elim (In-cons (rw (drop_newlines, kept) at m)) [
    | inl same ↦ rw same here
    | inr later ↦ there (In-drop_newlines ts later)
  ]
]

module _ (parse_f64 : Text → ℕ) (src : Text) (file : ℕ) where
  abbrev pub AllLocated : List Token → Type 0
  AllLocated out = (t : Token) → In t out → Located parse_f64 src t

  pub AllLocated-add :
      (out : List Token) (t : Token)
      → AllLocated out
      → Located parse_f64 src t
      → AllLocated (out ++ t ∷ [])
  AllLocated-add out t all' now u m = elim (In-append out (t ∷ []) m) [
    | inl old ↦ all' u old
    | inr new ↦ elim (In-cons new) [ inl same ↦ rw same now | inr none_left ↦ elim none_left [ ] ]
  ]

  -- What holds after every round: a bare newline has been met, or the lexer knows its line and every
  -- token is where its span says.
  abbrev pub Sound : Lexer → List Token → Type 0
  Sound l out = (any is_bare out ≡ true) ⊎ (At src file l × AllLocated out)

  abbrev pub token_at : Lexer → Tok → ℕ → Token
  token_at l tok n = record { tok = tok; span = span l l.pos (l.pos + n) }

  token_at-Located :
      (l : Lexer) (tok : Tok) (n : ℕ)
      → At src file l
      → scan parse_f64 (drop l.pos src) ≡ took tok n
      → Located parse_f64 src (token_at l tok n)
  token_at-Located l tok n a e =
      Located.scanned (rw (offset-span src file l (l.pos + n) a) (e ∙ ap (took tok) (omega arith)))

  pub took-Sound :
      (l : Lexer) (out : List Token) (tok : Tok) (n : ℕ)
      → Sound l out
      → scan parse_f64 (rest_of l) ≡ took tok n
      → Sound (advance n l) (out ++ token_at l tok n ∷ [])
  took-Sound l out tok n (inl bare) e = inl (any-append_left is_bare out _ bare)
  took-Sound l out tok n (inr (a, all')) e =
      let e' : scan parse_f64 (drop l.pos src) ≡ took tok n = rw a.same_src at e in
      elim (Bool-cases (starts_with bare_newline (drop l.pos src))) [
        | inl bare ↦ inl (
            any-append_last is_bare out (token_at l tok n) (
              bare-scan parse_f64 (drop l.pos src) (token_at l tok n) bare
                (e' ∙ ap (took tok) (omega arith))))
        | inr none_here ↦
            let (up, c) = scan-Extent parse_f64 (drop l.pos src) none_here e' in
            inr (
              advance-At src file l n l.comments a (rw a.same_src c),
              AllLocated-add out _ all' (token_at-Located l tok n a e'),
            )
      ]
