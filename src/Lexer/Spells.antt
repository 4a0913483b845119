-- ===== src/Lexer/Spells.antt =====
-- src/lexer.rs: a line of tokens with single blanks between them, and what `lex_full` makes of it.
use vibelang.Base.{
  ℕ, zero, suc, ◌+◌, ◌≤◌, ◌<◌, Text, true, false, not, some, List, [], ◌∷◌, ◌++◌, ◌≡◌, ◌≢◌, refl,
  ap, ◌∙◌, arith, ◌==◌, length, map, all, and_true, not_true, drop, drop-drop, length-drop,
  append_assoc,
}
use vibelang.Lexer.{Tok, Token, is_newline, nest}
use vibelang.Lexer.Scan.{took, at, scan}
use vibelang.Lexer.Scan.Extent.{scan-positive}
use vibelang.Lexer.Run.{
  Lexer, Comment, rest_of, advance, other, blank_at, skip_blank, Lexed, lexed, span, read_one,
  read_token, run, start, lex_full, real_tokens, drop_newlines,
}

module _ (parse_f64 : Text → ℕ) where
  -- The bytes are these tokens, none of them a newline, and blanks.
  pub data Spells : Text → List Tok → Type 0 where
    ends : Spells [] []
    blank : {s : Text} {ts : List Tok} → Spells s ts → Spells (b' ' ∷ s) ts
    token :
        {s : Text} {ts : List Tok} (t : Tok) (n : ℕ)
        → blank_at s ≡ other
        → (at 0 s == 10) ≡ false
        → s ≢ []
        → scan parse_f64 s ≡ took t n
        → is_newline t ≡ false
        → Spells (drop n s) ts
        → Spells s (t ∷ ts)

abbrev toks : List Token → List Tok
toks = map (λ (t : Token). t.tok)

toks-append : (ts us : List Token) → toks (ts ++ us) ≡ toks ts ++ toks us
toks-append [] us = refl
toks-append (t ∷ ts) us = ap (◌∷◌ t.tok) (toks-append ts us)

keep_all :
    (us : List Token) → all (λ t. not (is_newline t)) (toks us) ≡ true → drop_newlines us ≡ us
unfolding drop_newlines
keep_all [] h = refl
keep_all (u ∷ us) h =
    let (n, h') = and_true (not (is_newline u.tok)) _ h in
    rw (drop_newlines, not_true (is_newline u.tok) n) (ap (◌∷◌ u) (keep_all us h'))

module _ (parse_f64 : Text → ℕ) where
  -- After the blanks: the end, or a token.
  data Next (s : Text) : List Tok → Type 0 where
    at_end : s ≡ [] → Next s []
    at_token :
        (t : Tok) (n : ℕ) {ts : List Tok}
        → (at 0 s == 10) ≡ false
        → s ≢ []
        → scan parse_f64 s ≡ took t n
        → is_newline t ≡ false
        → Spells parse_f64 (drop n s) ts
        → Next s (t ∷ ts)

  skip_blank-Spells :
      {s : Text} {ts : List Tok} (f : ℕ) (l : Lexer) (after : ℕ)
      → Spells parse_f64 s ts
      → rest_of l ≡ s
      → length s < f
      → (l' : Lexer) × (skip_blank f l after ≡ some l')
        × (l'.src ≡ l.src)
        × (length (rest_of l') ≤ length s)
        × Next (rest_of l') ts
  unfolding skip_blank blank_at
  skip_blank-Spells zero l after w e h = absurd (omega arith)
  skip_blank-Spells (suc f) l after ends e h =
      (l, rw (skip_blank, e) refl, refl, omega (arith, ap length e), at_end e)
  skip_blank-Spells (suc f) l after (blank {s} {ts} w) e h =
      let e' : rest_of (advance 1 l) ≡ s = drop-drop l.pos 1 l.src ∙ ap (drop 1) e in
      let (l', q, same, shorter, next) =
        skip_blank-Spells f (advance 1 l) after w e' (omega arith) in
      (l', rw (skip_blank, e) q, same, omega (arith, shorter), next)
  skip_blank-Spells (suc f) l after (token {s} {ts} t n b nl ne sc nn w) e h = (
    l,
    rw (skip_blank, e, b) refl,
    refl,
    omega (arith, ap length e),
    rw e (at_token t n nl ne sc nn w),
  )

  Ends : Lexed → List Tok → Type 0
  Ends r ts = (us : List Token) × (cs : List Comment) × (r ≡ lexed us cs) × (toks us ≡ ts)

  read_one-Spells :
      (next : Lexer → List Token → ℕ → Lexed) (l : Lexer) (out : List Token) (depth : ℕ)
      (rest : Text) {ts : List Tok}
      → Next rest ts
      → ((t : Tok) (n : ℕ) (ts' : List Tok)
          → 0 < n
          → rest ≢ []
          → Spells parse_f64 (drop n rest) ts'
          → Ends
              (next
                (advance n l)
                (out ++ record { tok = t; span = span l l.pos (l.pos + n) } ∷ [])
                (nest t depth))
              (toks (out ++ record { tok = t; span = span l l.pos (l.pos + n) } ∷ [])
                ++ (ts' ++ Tok.eof ∷ [])))
      → Ends (read_one parse_f64 next l out depth rest) (toks out ++ (ts ++ Tok.eof ∷ []))
  unfolding Ends read_one read_token
  read_one-Spells next l out depth [] (at_end e) loop = (_, _, refl, toks-append out _)
  read_one-Spells next l out depth (c ∷ r) (at_end e) loop = cc e
  read_one-Spells next l out depth [] (at_token t n nl ne sc nn w) loop = absurd (ne refl)
  read_one-Spells next l out depth (c ∷ r) (at_token t n {ts} nl ne sc nn w) loop =
      let (us, cs, q, k) = loop t n ts (scan-positive parse_f64 (c ∷ r) sc) ne w in
      (
        us,
        cs,
        rw (nl, sc) q,
        k
            ∙ ap (λ (vs : List Tok). vs ++ (ts ++ Tok.eof ∷ [])) (toks-append out _)
            ∙ append_assoc (toks out) (t ∷ []) (ts ++ Tok.eof ∷ []),
      )

  some_length : (s : Text) → s ≢ [] → 0 < length s
  some_length [] h = absurd (h refl)
  some_length (c ∷ s) h = omega arith

  run-Spells :
      (f : ℕ) (l : Lexer) (out : List Token) (depth : ℕ) {ts : List Tok}
      → Spells parse_f64 (rest_of l) ts
      → length (rest_of l) < f
      → Ends (run parse_f64 f l out depth) (toks out ++ (ts ++ Tok.eof ∷ []))
  unfolding run
  run-Spells zero l out depth w h = absurd (omega arith)
  run-Spells (suc f) l out depth {ts} w h =
      let (l', q, same, shorter, next) =
        skip_blank-Spells (suc (length l.src)) l (real_tokens out) w refl
          (omega (arith, length-drop l.pos l.src)) in
      rw (run, q)
        (read_one-Spells (run parse_f64 f) l' out depth (rest_of l') next (λ t n ts' pos ne w'.
          let here : rest_of (advance n l') ≡ drop n (rest_of l') = drop-drop l'.pos n l'.src in
          run-Spells f (advance n l')
            (out ++ record { tok = t; span = span l' l'.pos (l'.pos + n) } ∷ []) (nest t depth)
            {ts = ts'} (rw (← here) at w')
            (omega (
              arith,
              ap length here,
              length-drop n (rest_of l'),
              some_length (rest_of l') ne,
              shorter,
              h,
              pos,
            ))))

  no_newlines :
      {s : Text} {ts : List Tok}
      → Spells parse_f64 s ts
      → all (λ t. not (is_newline t)) (ts ++ Tok.eof ∷ []) ≡ true
  no_newlines ends = refl
  no_newlines (blank w) = no_newlines w
  no_newlines (token t n b nl ne sc nn w) = rw nn (no_newlines w)

  -- Such bytes are lexed to those tokens and the end of the source.
  pub lex_full-Spells :
      (s : Text) (file : ℕ) {ts : List Tok}
      → Spells parse_f64 s ts
      → (us : List Token) × (cs : List Comment) × (lex_full parse_f64 s file ≡ lexed us cs)
        × (map (λ (t : Token). t.tok) us ≡ ts ++ Tok.eof ∷ [])
  unfolding lex_full Ends
  lex_full-Spells s file w =
      let (us, cs, q, k) = run-Spells (suc (length s)) (start s file) [] 0 w (omega arith) in
      let kept : drop_newlines us ≡ us =
        keep_all us (ap (all (λ t. not (is_newline t))) k ∙ no_newlines w) in
      (us, cs, rw (lex_full, q) (ap (λ (vs : List Token). lexed vs cs) kept), k)
