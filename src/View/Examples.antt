-- ===== src/View/Examples.antt =====
-- src/view.rs on small literals and types.
use vibelang.Base.{ℕ, Text, List, [], ◌∷◌, ◌++◌, codes, contains, text_eq, ◌≡◌, refl, length}
use vibelang.Diag.{error}
use vibelang.Ast.{Ty, Tys}
use vibelang.Lexer.{Tok, Token}
use vibelang.Lexer.Scan.{took, string, character, scan}
use vibelang.Lexer.Run.{
  Comment, lexed, lex_full, run, skip_blank, read_one, read_token, drop_newlines,
}
use vibelang.Parser.{Parser, ok, err, cur}
use vibelang.Parser.Spelling.{Level, split_dot}
use vibelang.Parser.Types.{ty}
use vibelang.Parser.Types.Reads.{need}
use vibelang.View.{quote, char_literal}
use vibelang.View.Literals.{string-quote, character-char_literal}
use vibelang.View.Types.{print}
use vibelang.View.Printed.{IsPrinted}
use vibelang.View.RoundTrip.{ty-print, print_injective}

-- No literal of the examples is a decimal.
abbrev no_floats : Text → ℕ
no_floats s = 0

-- Two lines with a quote and a backslash.
abbrev lines : Text
lines = b'"' ∷ 10 ∷ b'\\' ∷ b'z' ∷ []

lines_quoted : quote lines ≡ codes "\"\\\"\\n\\\\z\""
unfolding quote
lines_quoted = refl

string-quote_example :
    string (quote lines ++ codes " + x") ≡ took (Tok.str lines) (length (quote lines))
string-quote_example = string-quote lines (codes " + x")

character-char_literal_example :
    character (char_literal 10 ++ codes " -> 0") ≡ took (Tok.char 10) (length (char_literal 10))
character-char_literal_example = character-char_literal 10 (codes " -> 0")

-- The two bytes of `é` between quotes.
e_acute : char_literal 233 ≡ b'\'' ∷ 0xc3 ∷ 0xa9 ∷ b'\'' ∷ []
unfolding char_literal
e_acute = refl

-- `&List (E! Bool) -> (a, Json.Value)`.
abbrev demo : Ty
demo =
    Ty.fun
      (Ty.ref (Ty.con (codes "List") (Tys.cons (Ty.eff (Ty.con (codes "Bool") Tys.nil)) Tys.nil)))
      (Ty.tuple
        (Tys.cons (Ty.var (codes "a")) (Tys.cons (Ty.con (codes "Json.Value") Tys.nil) Tys.nil)))

demo_printed : print Level.top demo ≡ codes "&List (E! Bool) -> (a, Json.Value)"
unfolding print
demo_printed = refl

demo-IsPrinted : IsPrinted demo
unfolding IsPrinted split_dot contains text_eq
demo-IsPrinted = ((refl, (refl, ((refl, tt), tt))), (refl, ((refl, tt), tt)))

ty-print_example :
    (us : List Token) × (cs : List Comment) × (p' : Parser) × (lex_full no_floats
        (print Level.top demo)
        0
      ≡ lexed us cs)
    × (ty (need demo) (record { toks = us; i = 0; depth = 0; home = codes "D" }) ≡ ok demo p')
    × ((cur p').tok ≡ Tok.eof)
ty-print_example = ty-print no_floats demo 0 (codes "D") demo-IsPrinted

print_injective_example : Ty.con (codes "Bool") Tys.nil ≡ Ty.con (codes "Bool") Tys.nil
unfolding IsPrinted split_dot contains text_eq
print_injective_example =
    print_injective (Ty.con (codes "Bool") Tys.nil) (Ty.con (codes "Bool") Tys.nil) (refl, tt)
      (refl, tt) refl

-- A borrow of a borrow.
abbrev twice : Ty
twice = Ty.ref (Ty.ref (Ty.var (codes "a")))

twice_printed : print Level.top twice ≡ codes "&&a"
unfolding print
twice_printed = refl

abbrev at_col : Tok → ℕ → ℕ → Token
at_col t col len = record { tok = t; span = record { file = 0; line = 1; col = col; len = len } }

abbrev both : List Token
both =
    at_col (Tok.sym (codes "&&")) 0 2 ∷ at_col (Tok.name (codes "a")) 2 1 ∷ at_col Tok.eof 3 0 ∷ []

-- The text is read as the operator and no type, though the tokens of `& &a` are read as the type.
twice_lexed : lex_full no_floats (print Level.top twice) 0 ≡ lexed both []
unfolding lex_full print run skip_blank read_one read_token scan text_eq drop_newlines contains
twice_lexed = refl

twice_refused :
    ty 9 (record { toks = both; i = 0; depth = 0; home = [] })
    ≡ err (error (record { file = 0; line = 1; col = 0; len = 2 }) (codes "parse.type"))
unfolding ty text_eq
twice_refused = refl

twice_parsed :
    (p : Parser) × (ty 9 (record {
      toks =
          at_col (Tok.sym (codes "&")) 0 1
          ∷ at_col (Tok.sym (codes "&")) 2 1
          ∷ at_col (Tok.name (codes "a")) 3 1
          ∷ at_col Tok.eof 4 0
          ∷ [];
      i = 0;
      depth = 0;
      home = [];
    })
      ≡ ok twice p)
unfolding ty text_eq
twice_parsed = (_, refl)
