-- ===== src/Parser/Types/Readable.antt =====
-- src/parser.rs: names, borrows, effects and arrows are read from the tokens that spell them.
use vibelang.Base.{
  ℕ, zero, suc, ◌+◌, ◌≤◌, Text, true, not, ◌&&◌, List, [], ◌∷◌, ◌++◌, codes, text_eq, ◌≡◌, refl,
  sym, ◌∙◌, arith, append_assoc, append-nil,
}
use vibelang.Lexer.{Tok}
use vibelang.Ast.{Ty, Tys}
use vibelang.Parser.{forward}
use vibelang.Parser.Ahead.{ahead-forward, eat_sym-yes}
use vibelang.Parser.Spelling.{Level, name_tokens, tokens, parens}
use vibelang.Parser.Types.{ty, ty_app, args, type_atom, parts, bare_atom, is_ctor, applied}
use vibelang.Parser.Types.Steps.{after_atom, after_app, after_top, name_first}
use vibelang.Parser.Types.Atoms.{no_prefix, read_ref, read_eff, read_other, read_var, read_con}
use vibelang.Parser.Types.Reads.{need, needs, Claim, atom_by_parens, app_by_atom, top_by_app}
use vibelang.Parser.Types.Loops.{Args, Args-nil, app_of_name}

-- A type is read at every level.
pub record Readable (t : Ty) : Type 0 where
  pub as_atom : Claim type_atom Level.atom after_atom (need t) t
  pub as_app : Claim ty_app Level.app after_app (need t) t
  pub as_top : Claim ty Level.top after_top (need t) t

atom_of_var : (n : Text) → Claim type_atom Level.atom after_atom 1 (Ty.var n)
unfolding tokens type_atom
atom_of_var n zero p x xs h a c = absurd (omega arith)
atom_of_var n (suc f) p x xs h a c =
    rw (type_atom, read_other (type_atom f) (bare_atom (ty f) (parts f)) p a refl)
      (read_var (ty f) (parts f) p a)

module _ (t : Ty) where
  -- From fuel `k` on, at every level.
  packed :
      (k : ℕ)
      → k ≤ need t
      → Claim type_atom Level.atom after_atom k t
      → Claim ty_app Level.app after_app k t
      → Claim ty Level.top after_top k t
      → Readable t
  packed k enough atom app top = record {
    as_atom = λ f p x xs h. atom f p x xs (omega (arith, enough, h));
    as_app = λ f p x xs h. app f p x xs (omega (arith, enough, h));
    as_top = λ f p x xs h. top f p x xs (omega (arith, enough, h));
  }

  pub from_atom :
      (k : ℕ)
      → 2 + k ≤ need t
      → tokens Level.app t ≡ tokens Level.atom t
      → tokens Level.top t ≡ tokens Level.app t
      → (y : Tok) (ys : List Tok) → tokens Level.atom t ≡ y ∷ ys
      → (no_prefix y && not (is_ctor y)) ≡ true
      → Claim type_atom Level.atom after_atom k t
      → Readable t
  from_atom k enough e e' y ys q first atom =
      let app : Claim ty_app Level.app after_app (suc k) t = app_by_atom t k e y ys q first atom in
      let top : Claim ty Level.top after_top (suc (suc k)) t = top_by_app t (suc k) e' app in
      packed (suc (suc k)) (omega (arith, enough)) (λ f p x xs h. atom f p x xs (omega (arith, h)))
        (λ f p x xs h. app f p x xs (omega (arith, h))) top

  from_app :
      (k : ℕ)
      → 2 + k ≤ need t
      → tokens Level.top t ≡ tokens Level.app t
      → tokens Level.atom t ≡ parens (tokens Level.top t)
      → Claim ty_app Level.app after_app k t
      → Readable t
  from_app k enough e e' app =
      let top : Claim ty Level.top after_top (suc k) t = top_by_app t k e app in
      let atom : Claim type_atom Level.atom after_atom (suc (suc k)) t =
        atom_by_parens t (suc k) e' (omega arith) top in
      packed (suc (suc k)) (omega (arith, enough)) atom
        (λ f p x xs h. app f p x xs (omega (arith, h)))
        (λ f p x xs h. top f p x xs (omega (arith, h)))

pub var-Readable : (n : Text) → Readable (Ty.var n)
unfolding need tokens
var-Readable n =
    from_atom (Ty.var n) 1 (omega arith) refl refl (Tok.name n) [] refl refl (atom_of_var n)

-- A name by itself.
atom_of_name : (n : Text) → Claim type_atom Level.atom after_atom 1 (Ty.con n Tys.nil)
unfolding tokens type_atom
atom_of_name n zero p x xs h a c = absurd (omega arith)
atom_of_name n (suc f) p x xs h a c =
    let (m, us, q) = name_first n (x ∷ xs) in
    rw (type_atom, read_other (type_atom f) (bare_atom (ty f) (parts f)) p (a ∙ q) refl)
      (read_con (ty f) (parts f) p n a c)

pub name-Readable : (n : Text) → Readable (Ty.con n Tys.nil)
unfolding need needs tokens
name-Readable n =
    let t : Ty = Ty.con n Tys.nil in
    let app : Claim ty_app Level.app after_app 2 t =
      app_of_name n Tys.nil (sym (append-nil (name_tokens n))) Args-nil in
    let top : Claim ty Level.top after_top 3 t = top_by_app t 2 refl app in
    packed t 3 (omega arith) (λ f p x xs h. atom_of_name n f p x xs (omega (arith, h)))
      (λ f p x xs h. app f p x xs (omega (arith, h))) top

pub con-Readable :
    (n : Text) (t : Ty) (ts : Tys) → Args (Tys.cons t ts) → Readable (Ty.con n (Tys.cons t ts))
unfolding need tokens
con-Readable n t ts rest =
    from_app (Ty.con n (Tys.cons t ts)) (suc (needs (Tys.cons t ts))) (omega arith) refl refl
      (app_of_name n (Tys.cons t ts) refl rest)

app_of_eff : (t : Ty) → Readable t → Claim ty_app Level.app after_app (suc (need t)) (Ty.eff t)
unfolding tokens ty_app
app_of_eff t r zero p x xs h a c = absurd (omega arith)
app_of_eff t r (suc f) p x xs h a c =
    read_eff (ty_app f) (applied (args f) (type_atom f)) p a
      (r.as_app f (forward 1 p) x xs (omega arith) (ahead-forward p a) c)

pub eff-Readable : (t : Ty) → Readable t → Readable (Ty.eff t)
unfolding need tokens
eff-Readable t r = from_app (Ty.eff t) (suc (need t)) (omega arith) refl refl (app_of_eff t r)

atom_of_ref :
    (t : Ty) → Readable t → Claim type_atom Level.atom after_atom (suc (need t)) (Ty.ref t)
unfolding tokens type_atom
atom_of_ref t r zero p x xs h a c = absurd (omega arith)
atom_of_ref t r (suc f) p x xs h a c =
    read_ref (type_atom f) (bare_atom (ty f) (parts f)) p a
      (r.as_atom f (forward 1 p) x xs (omega arith) (ahead-forward p a) c)

app_of_ref : (t : Ty) → Readable t → Claim ty_app Level.app after_app (suc (need t)) (Ty.ref t)
unfolding tokens ty_app
app_of_ref t r zero p x xs h a c = absurd (omega arith)
app_of_ref t r (suc f) p x xs h a c =
    read_ref (ty_app f) (applied (args f) (type_atom f)) p a
      (r.as_app f (forward 1 p) x xs (omega arith) (ahead-forward p a) c)

pub ref-Readable : (t : Ty) → Readable t → Readable (Ty.ref t)
unfolding need tokens
ref-Readable t r =
    let top : Claim ty Level.top after_top (suc (suc (need t))) (Ty.ref t) =
      top_by_app (Ty.ref t) (suc (need t)) refl (app_of_ref t r) in
    packed (Ty.ref t) (suc (suc (need t))) (omega arith)
      (λ f p x xs h. atom_of_ref t r f p x xs (omega (arith, h)))
      (λ f p x xs h. app_of_ref t r f p x xs (omega (arith, h))) top

top_of_fun :
    (a b : Ty)
    → Readable a
    → Readable b
    → Claim ty Level.top after_top (suc (need a + need b)) (Ty.fun a b)
unfolding tokens ty text_eq
top_of_fun a b r s zero p x xs h e c = absurd (omega arith)
top_of_fun a b r s (suc f) p x xs h e c =
    let arrow : Tok = Tok.sym (codes "->") in
    let (p1, e1, h1) =
      r.as_app f p arrow (tokens Level.top b ++ x ∷ xs) (omega arith)
        (e ∙ append_assoc (tokens Level.app a) (arrow ∷ tokens Level.top b) (x ∷ xs)) refl in
    let (p2, e2, h2) = s.as_top f (forward 1 p1) x xs (omega arith) (ahead-forward p1 h1) c in
    (p2, rw (ty, e1, eat_sym-yes (codes "->") p1 h1, e2) refl, h2)

pub fun-Readable : (a b : Ty) → Readable a → Readable b → Readable (Ty.fun a b)
unfolding need tokens text_eq
fun-Readable a b r s =
    let t : Ty = Ty.fun a b in
    let k : ℕ = suc (need a + need b) in
    let top : Claim ty Level.top after_top k t = top_of_fun a b r s in
    let atom : Claim type_atom Level.atom after_atom (suc k) t =
      atom_by_parens t k refl (omega arith) top in
    let app : Claim ty_app Level.app after_app (suc (suc k)) t =
      app_by_atom t (suc k) refl (Tok.sym (codes "(")) _ refl refl atom in
    packed t (suc (suc k)) (omega arith) (λ f p x xs h. atom f p x xs (omega (arith, h))) app
      (λ f p x xs h. top f p x xs (omega (arith, h)))
