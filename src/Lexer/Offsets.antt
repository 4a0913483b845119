-- ===== src/Lexer/Offsets.antt =====
-- src/lexer.rs with src/patch.rs: a token is where `offset` of its span says.
use vibelang.Base.{
  ℕ, zero, suc, ◌+◌, Text, true, ◌&&◌, List, [], ◌∷◌, ◌++◌, ◌≡◌, refl, sym, ap, ◌∙◌, arith, ◌==◌,
  length, get_or, drop, get_or-drop, Bool-cases, Option-cases, inl, inr, In, some, any, ◌⊎◌, false,
}
use vibelang.Lexer.{Tok, Token}
use vibelang.Lexer.Scan.{Scan, took, refused, at, scan}
use vibelang.Lexer.Bare.{is_bare, any-append_left, any-drop_newlines}
use vibelang.Lexer.Run.{
  Lexer, Comment, rest_of, advance, skip_blank, Lexed, lexed, failed, out_of_fuel, next_line,
  at_newline, read_one, read_token, run, start, lex_full, real_tokens, drop_newlines, last_ends,
  span,
}
use vibelang.Patch.{line_starts}
use vibelang.Lexer.Position.{At, next_line-At, offset-span, skip_blank-At}
use vibelang.Lexer.Located.{
  Located, In-drop_newlines, AllLocated, AllLocated-add, Sound, took-Sound,
}

module _ (parse_f64 : Text → ℕ) (src : Text) (file : ℕ) where
  abbrev Good : Lexed → Type 0
  Good (lexed toks comments) = (any is_bare toks ≡ true) ⊎ AllLocated parse_f64 src file toks
  Good (failed d) = Unit
  Good out_of_fuel = Unit

  abbrev Next : Type 0
  Next = Lexer → List Token → ℕ → Lexed

  abbrev GoodNext : Next → Type 0
  GoodNext next =
      (l' : Lexer) (out' : List Token) (depth' : ℕ)
      → Sound parse_f64 src file l' out'
      → Good (next l' out' depth')

  read_token-Good :
      (next : Next) (l : Lexer) (out : List Token) (depth : ℕ) (x : Scan)
      → Sound parse_f64 src file l out
      → scan parse_f64 (rest_of l) ≡ x
      → GoodNext next
      → Good (read_token next l out depth x)
  unfolding read_token
  read_token-Good next l out depth (took tok n) st e h =
      h (advance n l) _ _ (took-Sound parse_f64 src file l out tok n st e)
  read_token-Good next l out depth (refused i j code) st e h = tt

  at_newline-AllLocated :
      (l : Lexer) (out : List Token) (depth : ℕ)
      → At src file l
      → at 0 (rest_of l) ≡ 10
      → AllLocated parse_f64 src file out
      → AllLocated parse_f64 src file (at_newline l depth out)
  unfolding at_newline
  at_newline-AllLocated l out depth a e all' = elim (Bool-cases (depth == 0 && last_ends out)) [
    | inl kept ↦
        let e' : get_or (drop l.pos src) 0 0 ≡ 10 = rw a.same_src at e in
        rw kept (
          AllLocated-add parse_f64 src file out _ all' (
            Located.line_end refl (
              rw (offset-span src file l l.pos a) (
                ap (λ (j : ℕ). get_or src j 0) {x = l.pos} {y = l.pos + 0} (omega arith)
                ∙ sym (get_or-drop l.pos 0 src 0)
                ∙ e'))))
    | inr dropped ↦ rw dropped all'
  ]

  at_newline-bare :
      (l : Lexer) (out : List Token) (depth : ℕ)
      → any is_bare out ≡ true
      → any is_bare (at_newline l depth out) ≡ true
  unfolding at_newline
  at_newline-bare l out depth bare = elim (Bool-cases (depth == 0 && last_ends out)) [
    | inl kept ↦ rw kept (any-append_left is_bare out _ bare)
    | inr dropped ↦ rw dropped bare
  ]

  newline-Sound :
      (l : Lexer) (out : List Token) (depth : ℕ) (rest : Text)
      → Sound parse_f64 src file l out
      → rest_of l ≡ 10 ∷ rest
      → Sound parse_f64 src file (next_line l) (at_newline l depth out)
  newline-Sound l out depth rest (inl bare) e = inl (at_newline-bare l out depth bare)
  newline-Sound l out depth rest (inr (a, all')) e =
      inr (next_line-At src file l rest a e, at_newline-AllLocated l out depth a (rw e refl) all')

  end-Good :
      (l : Lexer) (out : List Token)
      → Sound parse_f64 src file l out
      → rest_of l ≡ []
      → Good (lexed (out ++ record { tok = Tok.eof; span = span l l.pos l.pos } ∷ []) l.comments)
  end-Good l out (inl bare) e = inl (any-append_left is_bare out _ bare)
  end-Good l out (inr (a, all')) e = inr (
      AllLocated-add parse_f64 src file out _ all'
        (Located.source_end refl (rw (offset-span src file l l.pos a) (rw a.same_src at e))))

  read_one-Good :
      (next : Next) (l : Lexer) (out : List Token) (depth : ℕ) (rest : Text)
      → Sound parse_f64 src file l out
      → rest_of l ≡ rest
      → GoodNext next
      → Good (read_one parse_f64 next l out depth rest)
  unfolding read_one
  read_one-Good next l out depth [] st e h = end-Good l out st e
  read_one-Good next l out depth (c ∷ rest) st e h = elim (Bool-cases (c == 10)) [
    | inl newline ↦
        let ten : c ≡ 10 = ground (arith, newline) in
        rw newline (h (next_line l) _ depth (newline-Sound l out depth rest st (rw ten at e)))
    | inr other_byte ↦
        rw other_byte
          (read_token-Good next l out depth (scan parse_f64 (c ∷ rest)) st (rw e refl) h)
  ]

  skip_blank-Sound :
      (f : ℕ) (l l' : Lexer) (out : List Token)
      → Sound parse_f64 src file l out
      → skip_blank f l (real_tokens out) ≡ some l'
      → Sound parse_f64 src file l' out
  skip_blank-Sound f l l' out (inl bare) e = inl bare
  skip_blank-Sound f l l' out (inr (a, all')) e =
      inr (skip_blank-At src file f l (real_tokens out) a e, all')

  run-Good :
      (f : ℕ) (l : Lexer) (out : List Token) (depth : ℕ)
      → Sound parse_f64 src file l out
      → Good (run parse_f64 f l out depth)
  unfolding run
  run-Good zero l out depth st = tt
  run-Good (suc f) l out depth st =
      elim (Option-cases (skip_blank (suc (length l.src)) l (real_tokens out))) [
        | inl none_left ↦ rw (run, none_left) tt
        | inr (l', e) ↦
            rw (run, e)
              (read_one-Good (run parse_f64 f) l' out depth (rest_of l')
                (skip_blank-Sound (suc (length l.src)) l l' out st e) refl (run-Good f))
      ]

  start-At : At src file (start src file)
  unfolding line_starts
  start-At = record {
    same_src = refl;
    k = 0;
    same_line = refl;
    starts = refl;
    after_start = omega arith;
    inside = omega arith;
  }

  -- If no token that `lex_full` returns is a character literal of a newline without an escape, then
  -- every token is where `offset` of its span says: scanning there gives the token with the length of
  -- its span, and a newline or the end of the source is there for the other two tokens.
  pub lex_full-Located :
      (toks : List Token) (comments : List Comment) (t : Token)
      → any is_bare toks ≡ false
      → lex_full parse_f64 src file ≡ lexed toks comments
      → In t toks
      → Located parse_f64 src t
  unfolding lex_full
  lex_full-Located toks comments t bare e m =
      after_run (run parse_f64 (suc (length src)) (start src file) [] 0)
        (run-Good (suc (length src)) (start src file) [] 0 (inr (start-At, λ u n. elim n [ ]))) e
    where
      after_run :
          (r : Lexed)
          → Good r
          → elim r [
            | lexed toks comments ↦ lexed (drop_newlines toks) comments
            | failed d ↦ failed d
            | out_of_fuel ↦ out_of_fuel
          ]
            ≡ lexed toks comments
          → Located parse_f64 src t
      after_run (lexed us cs) (inr g) q =
          let same : drop_newlines us ≡ toks = cc q in g t (In-drop_newlines us (rw (← same) at m))
      after_run (lexed us cs) (inl met) q =
          let same : drop_newlines us ≡ toks = cc q in
          absurd (cc (sym (any-drop_newlines us met) ∙ ap (any is_bare) same ∙ bare))
      after_run (failed d) g q = absurd (cc q)
      after_run out_of_fuel g q = absurd (cc q)
