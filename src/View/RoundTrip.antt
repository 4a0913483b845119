-- ===== src/View/RoundTrip.antt =====
-- src/view.rs with src/lexer.rs and src/parser.rs: a type that `view` prints is lexed and parsed back.
use vibelang.Base.{ℕ, ◌+◌, Text, List, [], ◌≡◌, refl, sym, ap, ◌∙◌, arith, map, append-nil}
use vibelang.Ast.{Ty}
use vibelang.Lexer.{Tok, Token}
use vibelang.Lexer.Run.{Comment, lexed, lex_full}
use vibelang.Lexer.Spells.{ends, lex_full-Spells}
use vibelang.Parser.{Parser, ok, cur}
use vibelang.Parser.Ahead.{ahead, cur-ahead}
use vibelang.Parser.Spelling.{Level, tokens}
use vibelang.Parser.Types.{ty}
use vibelang.Parser.Types.Reads.{need}
use vibelang.Parser.Types.RoundTrip.{ty-tokens}
use vibelang.View.Types.{print}
use vibelang.View.Printed.{IsPrinted, printed-IsSpelled}
use vibelang.View.Prints.{moved, print-Prints}

module _ (parse_f64 : Text → ℕ) where
  -- A type as `view` prints it is lexed without an error, and the parser makes the same type of the
  -- tokens, with fuel for the size of the type, and stops at the end of the source. The type has names as the lexer reads them, no tuple
  -- of fewer than two parts, and no borrow directly under a borrow.
  pub ty-print :
      (t : Ty) (file : ℕ) (home : Text)
      → IsPrinted t
      → (us : List Token) × (cs : List Comment) × (p' : Parser) × (lex_full parse_f64
            (print Level.top t)
            file
          ≡ lexed us cs)
        × (ty (need t) (record { toks = us; i = 0; depth = 0; home = home }) ≡ ok t p')
        × ((cur p').tok ≡ Tok.eof)
  unfolding ahead
  ty-print t file home s =
      let (us, cs, q, k) = lex_full-Spells parse_f64 (print Level.top t) file (
        moved parse_f64 (sym (append-nil (print Level.top t)))
          (sym (append-nil (tokens Level.top t)))
          (print-Prints parse_f64 Level.top t s [] [] refl (ends))) in
      let (p', e, a) =
        ty-tokens t (need t) (record { toks = us; i = 0; depth = 0; home = home }) Tok.eof []
          (printed-IsSpelled t s) (omega arith) k refl in
      (us, cs, p', q, e, cur-ahead p' a)

-- Two types that are printed alike are the same type, if they have names as the lexer reads them, no
-- tuple of fewer than two parts, and no borrow directly under a borrow.
pub print_injective :
    (t u : Ty) → IsPrinted t → IsPrinted u → print Level.top t ≡ print Level.top u → t ≡ u
unfolding ahead
print_injective t u s r same =
    let no_value : Text → ℕ = λ s. 0 in
    let (us, cs, q, k) = lex_full-Spells no_value (print Level.top t) 0 (
      moved no_value (sym (append-nil (print Level.top t))) (sym (append-nil (tokens Level.top t)))
        (print-Prints no_value Level.top t s [] [] refl ends)) in
    let (vs, ds, q', k') = lex_full-Spells no_value (print Level.top u) 0 (
      moved no_value (sym (append-nil (print Level.top u))) (sym (append-nil (tokens Level.top u)))
        (print-Prints no_value Level.top u r [] [] refl ends)) in
    let alike : lexed us cs ≡ lexed vs ds =
      sym q ∙ ap (λ (x : Text). lex_full no_value x 0) same ∙ q' in
    let toks : us ≡ vs = cc alike in
    let p : Parser = record { toks = us; i = 0; depth = 0; home = [] } in
    let f : ℕ = need t + need u in
    let (p1, e1, a1) = ty-tokens t f p Tok.eof [] (printed-IsSpelled t s) (omega arith) k refl in
    let (p2, e2, a2) =
      ty-tokens u f p Tok.eof [] (printed-IsSpelled u r) (omega arith)
        (ap (map (λ (x : Token). x.tok)) toks ∙ k') refl in
    cc (sym e1 ∙ e2)
