-- ===== src/Parser/Types/Reads.antt =====
-- src/parser.rs: a type is read from the tokens that spell it.
use vibelang.Base.{
  ℕ, zero, suc, ◌+◌, ◌≤◌, Bool, true, false, not, ◌&&◌, List, [], ◌∷◌, ◌++◌, codes, text_eq, ◌≡◌,
  refl, sym, ap, ◌∙◌, arith, and_true, not_true, append_assoc,
}
use vibelang.Lexer.{Tok, is_newline}
use vibelang.Ast.{Ty, Tys}
use vibelang.Parser.{Parser, Parsed, cur, sync}
use vibelang.Parser.Ahead.{ahead, sym_is, cur-ahead, sync-ahead, eat_sym-no}
use vibelang.Parser.Spelling.{Level, tokens, parens}
use vibelang.Parser.Types.{
  ty, ty_app, args, type_atom, parts, starts_atom, applied, bare_atom, is_ctor,
}
use vibelang.Parser.Types.Steps.{Reads, after_atom, after_app, after_top, starts_atom-ahead}
use vibelang.Parser.Types.Starts.{tokens-Starts, starts-no_close}
use vibelang.Parser.Types.Atoms.{no_prefix, read_other, read_parens}

unfoldable mutual
  -- Fuel for a type, wherever it stands.
  pub need : Ty → ℕ
  need (Ty.con n ts) = 6 + needs ts
  need (Ty.var n) = 6
  need (Ty.fun a b) = 6 + (need a + need b)
  need (Ty.ref t) = 6 + need t
  need (Ty.eff t) = 6 + need t
  need (Ty.tuple ts) = 6 + needs ts

  pub needs : Tys → ℕ
  needs Tys.nil = 1
  needs (Tys.cons t ts) = 1 + (need t + needs ts)

unfoldable mutual
  -- A tuple has two parts or more.
  pub IsSpelled : Ty → Type 0
  IsSpelled (Ty.con n ts) = AreSpelled ts
  IsSpelled (Ty.var n) = Unit
  IsSpelled (Ty.fun a b) = IsSpelled a × IsSpelled b
  IsSpelled (Ty.ref t) = IsSpelled t
  IsSpelled (Ty.eff t) = IsSpelled t
  IsSpelled (Ty.tuple Tys.nil) = ⊥
  IsSpelled (Ty.tuple (Tys.cons t Tys.nil)) = ⊥
  IsSpelled (Ty.tuple (Tys.cons t (Tys.cons u us))) = IsSpelled t × (IsSpelled u × AreSpelled us)

  pub AreSpelled : Tys → Type 0
  AreSpelled Tys.nil = Unit
  AreSpelled (Tys.cons t ts) = IsSpelled t × AreSpelled ts

-- What a function on types does with the spelling at a level, from fuel `k` on.
abbrev pub Claim : (ℕ → Parser → Parsed Ty) → Level → (Tok → Bool) → ℕ → Ty → Type 0
Claim parse l follows k t =
    (f : ℕ) (p : Parser) (x : Tok) (xs : List Tok)
    → k ≤ f
    → ahead p ≡ tokens l t ++ x ∷ xs
    → follows x ≡ true
    → Reads (parse f p) t (x ∷ xs)

pub parts_end :
    (f : ℕ) (p : Parser) {x : Tok} {xs : List Tok}
    → 1 ≤ f
    → ahead p ≡ x ∷ xs
    → is_newline x ≡ false
    → sym_is (codes ",") x ≡ false
    → Reads (parts f p) Tys.nil (x ∷ xs)
unfolding parts
parts_end zero p h e n m = absurd (omega arith)
parts_end (suc f) p h e n m = (p, rw (eat_sym-no (codes ",") p e n m) refl, e)

pub args_end :
    (f : ℕ) (p : Parser) {x : Tok} {xs : List Tok}
    → 1 ≤ f
    → ahead p ≡ x ∷ xs
    → after_app x ≡ true
    → Reads (args f p) Tys.nil (x ∷ xs)
unfolding args
args_end zero p h e n = absurd (omega arith)
args_end (suc f) p {x} h e n =
    let s : sync p ≡ p = sync-ahead p e (ground (arith, n)) in
    let b : starts_atom (cur p) ≡ false = starts_atom-ahead p e ∙ ground (arith, n) in
    (p, rw (s, b) refl, e)

module _ (t : Ty) where
  -- In parentheses.
  pub atom_by_parens :
      (k : ℕ)
      → tokens Level.atom t ≡ parens (tokens Level.top t)
      → 1 ≤ k
      → Claim ty Level.top after_top k t
      → Claim type_atom Level.atom after_atom (suc k) t
  unfolding type_atom text_eq
  atom_by_parens k e pos claim zero p x xs h a n = absurd (omega arith)
  atom_by_parens k e pos claim (suc f) p x xs h a n =
      let (y, ys, q, s) = tokens-Starts Level.top t in
      let close : Tok = Tok.sym (codes ")") in
      let whole : tokens Level.top t ++ close ∷ x ∷ xs ≡ y ∷ (ys ++ close ∷ x ∷ xs) =
        ap (λ (us : List Tok). us ++ close ∷ x ∷ xs) q in
      let a' : ahead p ≡ Tok.sym (codes "(") ∷ y ∷ (ys ++ close ∷ x ∷ xs) =
        a
        ∙ ap (λ (us : List Tok). us ++ x ∷ xs) e
        ∙ ap (◌∷◌ (Tok.sym (codes "(")))
            (append_assoc (tokens Level.top t) (close ∷ []) (x ∷ xs) ∙ whole) in
      rw (type_atom, read_other (type_atom f) (bare_atom (ty f) (parts f)) p a' refl)
        (read_parens (ty f) (parts f) p {ts = Tys.nil} a' (starts-no_close y s)
          (λ r b. claim f r close (x ∷ xs) (omega arith) (b ∙ sym whole) refl)
          (λ r b. parts_end f r (omega arith) b refl refl))

  -- An application is an atom where it starts with no name and no prefix.
  pub app_by_atom :
      (k : ℕ)
      → tokens Level.app t ≡ tokens Level.atom t
      → (y : Tok) (ys : List Tok) → tokens Level.atom t ≡ y ∷ ys
      → (no_prefix y && not (is_ctor y)) ≡ true
      → Claim type_atom Level.atom after_atom k t
      → Claim ty_app Level.app after_app (suc k) t
  unfolding ty_app
  app_by_atom k e y ys q first claim zero p x xs h a n = absurd (omega arith)
  app_by_atom k e y ys q first claim (suc f) p x xs h a n =
      let (np, nc) = and_true (no_prefix y) (not (is_ctor y)) first in
      let a' : ahead p ≡ y ∷ (ys ++ x ∷ xs) = a ∙ ap (λ (us : List Tok). us ++ x ∷ xs) (e ∙ q) in
      let c : is_ctor (cur p).tok ≡ false = ap is_ctor (cur-ahead p a') ∙ not_true (is_ctor y) nc in
      rw (ty_app, read_other (ty_app f) (applied (args f) (type_atom f)) p a' np, c)
        (claim f p x xs (omega arith) (a ∙ ap (λ (us : List Tok). us ++ x ∷ xs) e)
          (ground (arith, n)))

  -- A type without an arrow at its top is an application.
  pub top_by_app :
      (k : ℕ)
      → tokens Level.top t ≡ tokens Level.app t
      → Claim ty_app Level.app after_app k t
      → Claim ty Level.top after_top (suc k) t
  unfolding ty
  top_by_app k e claim zero p x xs h a n = absurd (omega arith)
  top_by_app k e claim (suc f) p x xs h a n =
      let (p', r, a') =
        claim f p x xs (omega arith) (a ∙ ap (λ (us : List Tok). us ++ x ∷ xs) e)
          (ground (arith, n)) in
      (
        p',
        rw (ty, r, eat_sym-no (codes "->") p' a' (ground (arith, n)) (ground (arith, n))) refl,
        a',
      )
