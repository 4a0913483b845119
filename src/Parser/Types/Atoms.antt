-- ===== src/Parser/Types/Atoms.antt =====
-- src/parser.rs: prefixes, names and parentheses of a type, by the tokens that are ahead.
use vibelang.Base.{
  suc, ◌+◌, ◌-◌, Text, Bool, true, false, not, ◌&&◌, List, ◌∷◌, ◌++◌, codes, text_eq, ◌≡◌, refl, ap,
  ◌∙◌, arith,
}
use vibelang.Lexer.{Tok, is_sym, is_newline}
use vibelang.Ast.{Ty, Tys}
use vibelang.Parser.{Parser, Parsed, ok, cur, forward, eat_sym, expect_sym, expected}
use vibelang.Parser.Ahead.{
  ahead, sym_is, is_sym_lem, cur-ahead, ahead-forward, sync-ahead, eat_sym-yes, eat_sym-no,
}
use vibelang.Parser.Spelling.{name_tokens}
use vibelang.Parser.Types.{after_ref, under, bare_atom, closed_parts}
use vibelang.Parser.Types.Steps.{Reads, after_atom, read_name, name_first}

-- A token that is no prefix.
abbrev pub no_prefix : Tok → Bool
no_prefix x = not (is_newline x) && not (sym_is (codes "&") x) && not (sym_is (codes "E!") x)

under-Reads :
    (f : Ty → Ty) (r : Parsed Ty) {t : Ty} {rest : List Tok}
    → Reads r t rest
    → Reads (under f r) (f t) rest
under-Reads f r (p, e, h) = (p, rw e refl, h)

expect_sym-ahead :
    (s : Text) (p : Parser) {xs : List Tok}
    → ahead p ≡ Tok.sym s ∷ xs
    → expect_sym s p ≡ ok (cur p).span (forward 1 p)
unfolding expect_sym
expect_sym-ahead s p h = ap (expected (cur p).span) (eat_sym-yes s p h)

module _ (again other : Parser → Parsed Ty) where
  pub read_ref :
      (p : Parser) {ts rest : List Tok} {t : Ty}
      → ahead p ≡ Tok.sym (codes "&") ∷ ts
      → Reads (again (forward 1 p)) t rest
      → Reads (after_ref again other (eat_sym (codes "&") p)) (Ty.ref t) rest
  read_ref p h r = rw (eat_sym-yes (codes "&") p h) (under-Reads Ty.ref (again (forward 1 p)) r)

  pub read_eff :
      (p : Parser) {ts rest : List Tok} {t : Ty}
      → ahead p ≡ Tok.sym (codes "E!") ∷ ts
      → Reads (again (forward 1 p)) t rest
      → Reads (after_ref again other (eat_sym (codes "&") p)) (Ty.eff t) rest
  unfolding text_eq
  read_eff p h r =
      rw (eat_sym-no (codes "&") p h refl refl, eat_sym-yes (codes "E!") p h)
        (under-Reads Ty.eff (again (forward 1 p)) r)

  pub read_other :
      (p : Parser) {x : Tok} {xs : List Tok}
      → ahead p ≡ x ∷ xs
      → no_prefix x ≡ true
      → after_ref again other (eat_sym (codes "&") p) ≡ other p
  read_other p h n =
      rw
        (
          eat_sym-no (codes "&") p h (ground (arith, n)) (ground (arith, n)),
          eat_sym-no (codes "E!") p h (ground (arith, n)) (ground (arith, n)),
        )
        (ap other (sync-ahead p h (ground (arith, n))))

module _ (item : Parser → Parsed Ty) (parts : Parser → Parsed Tys) where
  pub read_var :
      (p : Parser) {n : Text} {xs : List Tok}
      → ahead p ≡ Tok.name n ∷ xs
      → Reads (bare_atom item parts p) (Ty.var n) xs
  unfolding bare_atom
  read_var p h = (forward 1 p, rw (bare_atom, cur-ahead p h) refl, ahead-forward p h)

  pub read_con :
      (p : Parser) (n : Text) {x : Tok} {xs : List Tok}
      → ahead p ≡ name_tokens n ++ x ∷ xs
      → after_atom x ≡ true
      → Reads (bare_atom item parts p) (Ty.con n Tys.nil) (x ∷ xs)
  unfolding bare_atom
  read_con p n {x} {xs} h follows =
      let (m, us, e) = name_first n (x ∷ xs) in
      let (p', q, r) = read_name p n h follows in
      (
        p',
        rw (bare_atom, cur-ahead p (h ∙ e))
            (ap (λ (k : Text × Parser). ok (Ty.con k.0 Tys.nil) k.1) q),
        r,
      )

  -- The type in parentheses, or the parts of a tuple.
  pub read_parens :
      (p : Parser) {y : Tok} {ys mid rest : List Tok} {t : Ty} {ts : Tys}
      → ahead p ≡ Tok.sym (codes "(") ∷ y ∷ ys
      → sym_is (codes ")") y ≡ false
      → ((q : Parser) → ahead q ≡ y ∷ ys → Reads (item q) t mid)
      → ((q : Parser) → ahead q ≡ mid → Reads (parts q) ts (Tok.sym (codes ")") ∷ rest))
      → Reads (bare_atom item parts p) (closed_parts t ts) rest
  unfolding bare_atom text_eq ahead
  read_parens p {y} {ys} {mid} {rest} {t} {ts} h no_close read_item read_parts =
      let q : Parser = record p { i = p.i + 1; depth = suc p.depth } in
      let h' : ahead q ≡ y ∷ ys = ahead-forward p h in
      let paren : is_sym (codes "(") (cur p) ≡ true =
        is_sym_lem (codes "(") (cur p) ∙ ap (sym_is (codes "(")) (cur-ahead p h) in
      let more : is_sym (codes ")") (cur q) ≡ false =
        is_sym_lem (codes ")") (cur q) ∙ ap (sym_is (codes ")")) (cur-ahead q h') ∙ no_close in
      let (p1, e1, h1) = read_item q h' in
      let (p2, e2, h2) = read_parts p1 h1 in
      let p2' : Parser = record p2 { depth = p2.depth - 1 } in
      let e3 : expect_sym (codes ")") p2' ≡ ok (cur p2').span (forward 1 p2') =
        expect_sym-ahead (codes ")") p2' h2 in
      (
        forward 1 p2',
        rw (bare_atom, cur-ahead p h, paren, more, e1, e2, e3) refl,
        ahead-forward p2' h2,
      )
