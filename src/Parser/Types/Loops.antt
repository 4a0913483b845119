-- ===== src/Parser/Types/Loops.antt =====
-- src/parser.rs: the loops over arguments and parts, by the tokens that are ahead.
use vibelang.Base.{
  ℕ, zero, suc, ◌≤◌, Text, true, List, ◌∷◌, ◌++◌, codes, text_eq, ◌≡◌, refl, sym, ap, ◌∙◌, arith,
  append_assoc,
}
use vibelang.Lexer.{Tok}
use vibelang.Ast.{Ty, Tys}
use vibelang.Parser.{Parser, cur, forward, sync}
use vibelang.Parser.Ahead.{ahead, cur-ahead, ahead-forward, sync-ahead, eat_sym-yes}
use vibelang.Parser.Spelling.{Level, name_tokens, tokens, arg_tokens, part_tokens}
use vibelang.Parser.Types.{ty, ty_app, args, type_atom, parts, starts_atom, applied}
use vibelang.Parser.Types.Steps.{
  Reads, after_atom, after_app, after_top, read_name, name_first, starts_atom-ahead,
}
use vibelang.Parser.Types.Starts.{tokens-Starts, starts-after_atom}
use vibelang.Parser.Types.Atoms.{read_other}
use vibelang.Parser.Types.Reads.{need, needs, Claim, parts_end, args_end}

abbrev pub Args : Tys → Type 0
Args ts =
    (f : ℕ) (p : Parser) (x : Tok) (xs : List Tok)
    → needs ts ≤ f
    → ahead p ≡ arg_tokens ts ++ x ∷ xs
    → after_app x ≡ true
    → Reads (args f p) ts (x ∷ xs)

abbrev pub Parts : Tys → Type 0
Parts ts =
    (f : ℕ) (p : Parser) (xs : List Tok)
    → needs ts ≤ f
    → ahead p ≡ part_tokens ts ++ Tok.sym (codes ")") ∷ xs
    → Reads (parts f p) ts (Tok.sym (codes ")") ∷ xs)

-- What stands behind an argument may follow an atom.
behind_arg :
    (ts : Tys) (x : Tok) (xs : List Tok)
    → after_app x ≡ true
    → (z : Tok) × (zs : List Tok) × (arg_tokens ts ++ x ∷ xs ≡ z ∷ zs) × (after_atom z ≡ true)
unfolding tokens
behind_arg Tys.nil x xs n = (x, xs, refl, ground (arith, n))
behind_arg (Tys.cons t ts) x xs n =
    let (y, ys, q, s) = tokens-Starts Level.atom t in
    (
      y,
      (ys ++ arg_tokens ts) ++ x ∷ xs,
      ap (λ (us : List Tok). (us ++ arg_tokens ts) ++ x ∷ xs) q,
      starts-after_atom y s,
    )

pub Args-nil : Args Tys.nil
unfolding needs tokens
Args-nil f p x xs h a n = args_end f p h a n

pub Args-cons :
    (t : Ty) (ts : Tys)
    → Claim type_atom Level.atom after_atom (need t) t
    → Args ts
    → Args (Tys.cons t ts)
unfolding needs tokens args
Args-cons t ts claim rest zero p x xs h a n = absurd (omega arith)
Args-cons t ts claim rest (suc f) p x xs h a n =
    let (y, ys, q, s) = tokens-Starts Level.atom t in
    let (z, zs, b, c) = behind_arg ts x xs n in
    let whole : ahead p ≡ tokens Level.atom t ++ (arg_tokens ts ++ x ∷ xs) =
      a ∙ append_assoc (tokens Level.atom t) (arg_tokens ts) (x ∷ xs) in
    let first : ahead p ≡ y ∷ (ys ++ (arg_tokens ts ++ x ∷ xs)) =
      whole ∙ ap (λ (us : List Tok). us ++ (arg_tokens ts ++ x ∷ xs)) q in
    let in_step : sync p ≡ p = sync-ahead p first (ground (arith, starts-after_atom y s)) in
    let more : starts_atom (cur p) ≡ true = starts_atom-ahead p first ∙ s in
    let (p1, e1, h1) = claim f p z zs (omega arith) (whole ∙ ap (◌++◌ (tokens Level.atom t)) b) c in
    let (p2, e2, h2) = rest f p1 x xs (omega arith) (h1 ∙ sym b) n in
    (p2, rw (args, in_step, more, e1, e2) refl, h2)

pub Parts-nil : Parts Tys.nil
unfolding needs tokens text_eq
Parts-nil f p xs h a = parts_end f p h a refl refl

behind_part :
    (ts : Tys) (xs : List Tok)
    → (z : Tok) × (zs : List Tok) × (part_tokens ts ++ Tok.sym (codes ")") ∷ xs ≡ z ∷ zs)
      × (after_top z ≡ true)
unfolding tokens text_eq
behind_part Tys.nil xs = (Tok.sym (codes ")"), xs, refl, refl)
behind_part (Tys.cons t ts) xs = (Tok.sym (codes ","), _, refl, refl)

pub Parts-cons :
    (t : Ty) (ts : Tys) → Claim ty Level.top after_top (need t) t → Parts ts → Parts (Tys.cons t ts)
unfolding needs tokens parts
Parts-cons t ts claim rest zero p xs h a = absurd (omega arith)
Parts-cons t ts claim rest (suc f) p xs h a =
    let (z, zs, b, c) = behind_part ts xs in
    let close : List Tok = Tok.sym (codes ")") ∷ xs in
    let (p1, e1, h1) =
      claim f (forward 1 p) z zs (omega arith)
        (ahead-forward p a
          ∙ append_assoc (tokens Level.top t) (part_tokens ts) close
          ∙ ap (◌++◌ (tokens Level.top t)) b)
        c in
    let (p2, e2, h2) = rest f p1 xs (omega arith) (h1 ∙ sym b) in
    (p2, rw (parts, eat_sym-yes (codes ",") p a, e1, e2) refl, h2)

-- An application of a name.
pub app_of_name :
    (n : Text) (ts : Tys)
    → tokens Level.app (Ty.con n ts) ≡ name_tokens n ++ arg_tokens ts
    → Args ts
    → Claim ty_app Level.app after_app (suc (needs ts)) (Ty.con n ts)
unfolding ty_app
app_of_name n ts e rest zero p x xs h a follows = absurd (omega arith)
app_of_name n ts e rest (suc f) p x xs h a follows =
    let (z, zs, b, c) = behind_arg ts x xs follows in
    let whole : ahead p ≡ name_tokens n ++ z ∷ zs =
      a
      ∙ ap (λ (us : List Tok). us ++ x ∷ xs) e
      ∙ append_assoc (name_tokens n) (arg_tokens ts) (x ∷ xs)
      ∙ ap (◌++◌ (name_tokens n)) b in
    let (m, us, q) = name_first n (z ∷ zs) in
    let (p1, e1, h1) = read_name p n whole c in
    let (p2, e2, h2) = rest f p1 x xs (omega arith) (h1 ∙ sym b) follows in
    (
      p2,
      read_other (ty_app f) (applied (args f) (type_atom f)) p (whole ∙ q) refl
          ∙ rw (cur-ahead p (whole ∙ q), e1, e2) refl,
      h2,
    )
