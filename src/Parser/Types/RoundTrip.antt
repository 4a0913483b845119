-- ===== src/Parser/Types/RoundTrip.antt =====
-- src/parser.rs: every type is read from the tokens that spell it.
use vibelang.Base.{
  ℕ, zero, suc, ◌+◌, ◌≤◌, true, List, [], ◌∷◌, ◌++◌, codes, text_eq, ◌≡◌, refl, sym, ap, ◌∙◌, arith,
  append_assoc,
}
use vibelang.Lexer.{Tok}
use vibelang.Ast.{Ty, Tys}
use vibelang.Parser.{Parser, ok}
use vibelang.Parser.Ahead.{ahead}
use vibelang.Parser.Spelling.{Level, tokens, part_tokens}
use vibelang.Parser.Types.{ty, type_atom, parts, bare_atom}
use vibelang.Parser.Types.Steps.{after_atom, after_top}
use vibelang.Parser.Types.Starts.{tokens-Starts, starts-no_close}
use vibelang.Parser.Types.Atoms.{read_other, read_parens}
use vibelang.Parser.Types.Reads.{need, needs, IsSpelled, AreSpelled, Claim}
use vibelang.Parser.Types.Loops.{Args, Parts, Args-nil, Args-cons, Parts-nil, Parts-cons}
use vibelang.Parser.Types.Readable.{
  Readable, from_atom, var-Readable, name-Readable, con-Readable, eff-Readable, ref-Readable,
  fun-Readable,
}

atom_of_tuple :
    (t u : Ty) (us : Tys)
    → Readable t
    → Parts (Tys.cons u us)
    → Claim type_atom Level.atom after_atom
        (suc (need t + needs (Tys.cons u us)))
        (Ty.tuple (Tys.cons t (Tys.cons u us)))
unfolding tokens type_atom text_eq
atom_of_tuple t u us r rest zero p x xs h a c = absurd (omega arith)
atom_of_tuple t u us r rest (suc f) p x xs h a c =
    let close : Tok = Tok.sym (codes ")") in
    let (y, ys, q, s) = tokens-Starts Level.top t in
    let more : List Tok = part_tokens (Tys.cons u us) ++ close ∷ x ∷ xs in
    let whole : tokens Level.top t ++ more ≡ y ∷ (ys ++ more) =
      ap (λ (vs : List Tok). vs ++ more) q in
    let a' : ahead p ≡ Tok.sym (codes "(") ∷ y ∷ (ys ++ more) =
      a
      ∙ ap (◌∷◌ (Tok.sym (codes "("))) (
          append_assoc (tokens Level.top t ++ part_tokens (Tys.cons u us)) (close ∷ []) (x ∷ xs)
          ∙ append_assoc (tokens Level.top t) (part_tokens (Tys.cons u us)) (close ∷ x ∷ xs)
          ∙ whole) in
    rw (type_atom, read_other (type_atom f) (bare_atom (ty f) (parts f)) p a' refl)
      (read_parens (ty f) (parts f) p {ts = Tys.cons u us} a' (starts-no_close y s)
        (λ q' b. r.as_top f q' (Tok.sym (codes ",")) _ (omega arith) (b ∙ sym whole) refl)
        (λ q' b. rest f q' (x ∷ xs) (omega arith) b))

tuple-Readable :
    (t u : Ty) (us : Tys)
    → Readable t
    → Parts (Tys.cons u us)
    → Readable (Ty.tuple (Tys.cons t (Tys.cons u us)))
unfolding need needs tokens text_eq
tuple-Readable t u us r rest =
    from_atom (Ty.tuple (Tys.cons t (Tys.cons u us))) (suc (need t + needs (Tys.cons u us)))
      (omega arith) refl refl (Tok.sym (codes "(")) _ refl refl (atom_of_tuple t u us r rest)

mutual
  unfolding IsSpelled

  spelled-Readable : (t : Ty) → IsSpelled t → Readable t
  spelled-Readable (Ty.con n Tys.nil) s = name-Readable n
  spelled-Readable (Ty.con n (Tys.cons t ts)) (s, r) =
      con-Readable n t ts (Args-cons t ts (spelled-Readable t s).as_atom (spelled-Args ts r))
  spelled-Readable (Ty.var n) s = var-Readable n
  spelled-Readable (Ty.fun a b) (s, r) =
      fun-Readable a b (spelled-Readable a s) (spelled-Readable b r)
  spelled-Readable (Ty.ref t) s = ref-Readable t (spelled-Readable t s)
  spelled-Readable (Ty.eff t) s = eff-Readable t (spelled-Readable t s)
  spelled-Readable (Ty.tuple Tys.nil) s = elim s [ ]
  spelled-Readable (Ty.tuple (Tys.cons t Tys.nil)) s = elim s [ ]
  spelled-Readable (Ty.tuple (Tys.cons t (Tys.cons u us))) (s, (r, rs)) =
      tuple-Readable t u us (spelled-Readable t s)
        (Parts-cons u us (spelled-Readable u r).as_top (spelled-Parts us rs))

  spelled-Args : (ts : Tys) → AreSpelled ts → Args ts
  spelled-Args Tys.nil s = Args-nil
  spelled-Args (Tys.cons t ts) (s, r) =
      Args-cons t ts (spelled-Readable t s).as_atom (spelled-Args ts r)

  spelled-Parts : (ts : Tys) → AreSpelled ts → Parts ts
  spelled-Parts Tys.nil s = Parts-nil
  spelled-Parts (Tys.cons t ts) (s, r) =
      Parts-cons t ts (spelled-Readable t s).as_top (spelled-Parts ts r)

-- The parser reads a type from the tokens that spell it, whatever the nesting of arrows,
-- applications, borrows, effects and tuples of two or more, with brackets where a place asks for
-- them: it returns that type and stops before the next token, if that is not a newline, a dot, an
-- arrow or the start of an atom and there is fuel for the size of the type.
pub ty-tokens :
    (t : Ty) (f : ℕ) (p : Parser) (x : Tok) (xs : List Tok)
    → IsSpelled t
    → need t ≤ f
    → ahead p ≡ tokens Level.top t ++ x ∷ xs
    → after_top x ≡ true
    → (p' : Parser) × (ty f p ≡ ok t p') × (ahead p' ≡ x ∷ xs)
ty-tokens t f p x xs s enough a c = (spelled-Readable t s).as_top f p x xs enough a c
