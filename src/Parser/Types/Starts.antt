-- ===== src/Parser/Types/Starts.antt =====
-- src/parser.rs: the first token of a type.
use vibelang.Base.{
  Text, true, false, List, [], ◌∷◌, ◌++◌, codes, text_eq, text_eq→eq, Bool-cases, inl, inr, ◌≡◌,
  refl, sym, ap, ◌∙◌, append-nil,
}
use vibelang.Lexer.{Tok}
use vibelang.Ast.{Ty, Tys}
use vibelang.Parser.Ahead.{sym_is}
use vibelang.Parser.Spelling.{Level, name_tokens, tokens}
use vibelang.Parser.Types.Steps.{after_atom, starts_tok, name_first}

-- The spelling of a type starts with a token that starts an atom.
abbrev pub Starts : List Tok → Type 0
Starts ts = (y : Tok) × (ys : List Tok) × (ts ≡ y ∷ ys) × (starts_tok y ≡ true)

name-Starts : (n : Text) (ts : List Tok) → Starts (name_tokens n ++ ts)
name-Starts n ts = let (m, us, e) = name_first n ts in (Tok.ctor m, us, e, refl)

paren-Starts : (ts : List Tok) → Starts (Tok.sym (codes "(") ∷ ts)
unfolding text_eq
paren-Starts ts = (Tok.sym (codes "("), ts, refl, refl)

pub append-Starts : (ts us : List Tok) → Starts ts → Starts (ts ++ us)
append-Starts ts us (y, ys, e, s) = (y, ys ++ us, ap (λ (ts : List Tok). ts ++ us) e, s)

pub tokens-Starts : (l : Level) (t : Ty) → Starts (tokens l t)
unfolding tokens text_eq
tokens-Starts l (Ty.con n Tys.nil) =
    let (m, us, e) = name_first n [] in (Tok.ctor m, us, sym (append-nil (name_tokens n)) ∙ e, refl)
tokens-Starts Level.atom (Ty.con n (Tys.cons t ts)) = paren-Starts _
tokens-Starts Level.app (Ty.con n (Tys.cons t ts)) = name-Starts n _
tokens-Starts Level.top (Ty.con n (Tys.cons t ts)) = name-Starts n _
tokens-Starts l (Ty.var n) = (Tok.name n, [], refl, refl)
tokens-Starts Level.top (Ty.fun a b) =
    append-Starts (tokens Level.app a) _ (tokens-Starts Level.app a)
tokens-Starts Level.app (Ty.fun a b) = paren-Starts _
tokens-Starts Level.atom (Ty.fun a b) = paren-Starts _
tokens-Starts l (Ty.ref t) = (Tok.sym (codes "&"), _, refl, refl)
tokens-Starts Level.top (Ty.eff t) = (Tok.sym (codes "E!"), _, refl, refl)
tokens-Starts Level.app (Ty.eff t) = (Tok.sym (codes "E!"), _, refl, refl)
tokens-Starts Level.atom (Ty.eff t) = paren-Starts _
tokens-Starts l (Ty.tuple Tys.nil) = paren-Starts _
tokens-Starts l (Ty.tuple (Tys.cons t ts)) = paren-Starts _

-- It closes nothing.
pub starts-no_close : (y : Tok) → starts_tok y ≡ true → sym_is (codes ")") y ≡ false
unfolding text_eq
starts-no_close (Tok.sym s) h = elim (Bool-cases (text_eq s (codes ")"))) [
  | inr n ↦ n
  | inl e ↦ let q : s ≡ codes ")" = text_eq→eq s (codes ")") e in cc (rw q at h)
]
starts-no_close y h = refl

-- It may follow an atom, and is no newline.
pub starts-after_atom : (y : Tok) → starts_tok y ≡ true → after_atom y ≡ true
unfolding text_eq
starts-after_atom (Tok.sym s) h = elim (Bool-cases (text_eq s (codes "."))) [
  | inr n ↦ rw n refl
  | inl e ↦ let q : s ≡ codes "." = text_eq→eq s (codes ".") e in cc (rw q at h)
]
starts-after_atom (Tok.name n) h = refl
starts-after_atom (Tok.ctor n) h = refl
starts-after_atom y h = cc h
