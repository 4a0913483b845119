-- ===== src/Lexer/Examples.antt =====
-- src/lexer.rs on small sources.
use vibelang.Base.{
  any, true, ℕ, Text, false, List, [], ◌∷◌, ◌++◌, codes, text_eq, contains, ◌≡◌, refl, here, there,
}
use vibelang.Lexer.{Tok, Token, nest}
use vibelang.Lexer.Scan.{scan}
use vibelang.Lexer.Run.{
  Comment, lexed, lex_full, run, skip_blank, read_one, read_token, drop_newlines, real_tokens,
  at_newline,
}
use vibelang.Lexer.Ends.{ran_out, lex_full-total}
use vibelang.Lexer.Located.{Located}
use vibelang.Lexer.Offsets.{lex_full-Located}
use vibelang.Lexer.Bare.{is_bare}

-- No literal of the examples is a decimal.
abbrev no_floats : Text → ℕ
no_floats s = 0

-- `f x =` and, on the next line, `  "a\n" ;; say`.
abbrev demo : Text
demo = codes "f x =" ++ 10 ∷ codes "  \"a\\n\" ;; say"

abbrev token : Tok → ℕ → ℕ → ℕ → Token
token t line col len = record {
  tok = t;
  span = record { file = 0; line = line; col = col; len = len };
}

abbrev demo_tokens : List Token
demo_tokens =
    token (Tok.name (codes "f")) 1 0 1
    ∷ token (Tok.name (codes "x")) 1 2 1
    ∷ token (Tok.sym (codes "=")) 1 4 1
    ∷ token (Tok.str (b'a' ∷ 10 ∷ [])) 2 2 5
    ∷ token Tok.eof 2 14 0
    ∷ []

abbrev demo_comments : List Comment
demo_comments = record { after = 4; own_line = false; text = codes ";; say" } ∷ []

demo_lexed : lex_full no_floats demo 0 ≡ lexed demo_tokens demo_comments
unfolding lex_full run skip_blank read_one read_token scan text_eq drop_newlines real_tokens
    at_newline nest contains
demo_lexed = refl

lex_full-total_example : ran_out (lex_full no_floats demo 0) ≡ false
lex_full-total_example = lex_full-total no_floats demo 0

lex_full-Located_example : Located no_floats demo (token (Tok.str (b'a' ∷ 10 ∷ [])) 2 2 5)
unfolding is_bare
lex_full-Located_example =
    lex_full-Located no_floats demo 0 demo_tokens demo_comments _ refl demo_lexed
      (there (there (there here)))

-- A character literal of a bare newline, and a name after it on the next line.
abbrev across : Text
across = b'\'' ∷ 10 ∷ b'\'' ∷ b' ' ∷ b'x' ∷ []

-- The name is put on line 1, and the offset of its span is beyond the line it stands on.
across_lexed :
    lex_full no_floats across 0
    ≡ lexed
        (token (Tok.char 10) 1 0 3 ∷ token (Tok.name (codes "x")) 1 4 1 ∷ token Tok.eof 1 5 0 ∷ [])
        []
unfolding lex_full run skip_blank read_one read_token scan text_eq drop_newlines real_tokens
    at_newline nest contains
across_lexed = refl

-- A quote, a newline and a quote between two literals are no literal.
abbrev two_lines : Text
two_lines = codes "'a'" ++ 10 ∷ codes "'b'"

abbrev two_tokens : List Token
two_tokens =
    token (Tok.char b'a') 1 0 3
    ∷ token Tok.newline 1 3 0
    ∷ token (Tok.char b'b') 2 0 3
    ∷ token Tok.eof 2 3 0
    ∷ []

two_lexed : lex_full no_floats two_lines 0 ≡ lexed two_tokens []
unfolding lex_full run skip_blank read_one read_token scan text_eq drop_newlines real_tokens
    at_newline nest contains
two_lexed = refl

two_not_bare : any is_bare two_tokens ≡ false
unfolding is_bare
two_not_bare = refl

across_bare : is_bare (token (Tok.char 10) 1 0 3) ≡ true
unfolding is_bare
across_bare = refl
