-- ===== src/Parser/Spelling.antt =====
-- src/parser.rs: the tokens that spell a type, by the place that it stands in.
use vibelang.Base.{
  Text, Option, none, some, List, [], ◌∷◌, ◌++◌, codes, ◌==◌, ◌≡◌, refl, ap, arith, Bool-cases,
  Option-cases, inl, inr, if◌then◌else◌,
}
use vibelang.Lexer.{Tok}
use vibelang.Ast.{Ty, Tys}

-- A type by itself, left of an arrow, or as an argument.
pub data Level : Type 0 where
  top app atom : Level

-- A name before and behind its first dot.
unfoldable pub split_dot : Text → Option (Text × Text)
split_dot [] = none
split_dot (c ∷ s) =
    if c == b'.'
    then some ([], s)
    else (elim (split_dot s) [ none ↦ none | some (m, n) ↦ some (c ∷ m, n) ])

pub split_dot-eq_some : (s : Text) {m n : Text} → split_dot s ≡ some (m, n) → m ++ b'.' ∷ n ≡ s
unfolding split_dot
split_dot-eq_some [] h = cc h
split_dot-eq_some (c ∷ s) {m} {n} h = elim (Bool-cases (c == b'.')) [
  | inl y ↦
      let e : ◌≡◌ {A = Option (Text × Text)} (some ([], s)) (some (m, n)) =
        rw (split_dot, y) at h in
      let first : m ≡ [] = cc e in
      let rest : n ≡ s = cc e in
      let dot : c ≡ b'.' = ground (arith, y) in rw (first, rest, dot) refl
  | inr o ↦ elim (Option-cases (split_dot s)) [
    | inl none_left ↦ cc (rw (split_dot, o, none_left) at h)
    | inr ((m', n'), q) ↦
        let e : ◌≡◌ {A = Option (Text × Text)} (some (c ∷ m', n')) (some (m, n)) =
          rw (split_dot, o, q) at h in
        let first : m ≡ c ∷ m' = cc e in
        let rest : n ≡ n' = cc e in rw (first, rest) (ap (◌∷◌ c) (split_dot-eq_some s q))
  ]
]

abbrev pub dotted : Text → Option (Text × Text) → List Tok
dotted n none = Tok.ctor n ∷ []
dotted n (some (m, c)) = Tok.ctor m ∷ Tok.sym (codes ".") ∷ Tok.ctor c ∷ []

unfoldable pub name_tokens : Text → List Tok
unfolding split_dot
name_tokens n = dotted n (split_dot n)

abbrev pub parens : List Tok → List Tok
parens ts = Tok.sym (codes "(") ∷ (ts ++ Tok.sym (codes ")") ∷ [])

-- In parentheses where the place asks for it.
abbrev pub as_app : Level → List Tok → List Tok
as_app Level.atom ts = parens ts
as_app _ ts = ts

abbrev pub as_top : Level → List Tok → List Tok
as_top Level.top ts = ts
as_top _ ts = parens ts

abbrev pub under_ref : Level → Level
under_ref Level.atom = Level.atom
under_ref _ = Level.app

unfoldable mutual
  unfolding name_tokens

  pub tokens : Level → Ty → List Tok
  tokens l (Ty.con n Tys.nil) = name_tokens n
  tokens l (Ty.con n (Tys.cons t ts)) =
      as_app l (name_tokens n ++ (tokens Level.atom t ++ arg_tokens ts))
  tokens l (Ty.var n) = Tok.name n ∷ []
  tokens l (Ty.fun a b) = as_top l (tokens Level.app a ++ Tok.sym (codes "->") ∷ tokens Level.top b)
  tokens l (Ty.ref t) = Tok.sym (codes "&") ∷ tokens (under_ref l) t
  tokens l (Ty.eff t) = as_app l (Tok.sym (codes "E!") ∷ tokens Level.app t)
  tokens l (Ty.tuple Tys.nil) = parens []
  tokens l (Ty.tuple (Tys.cons t ts)) = parens (tokens Level.top t ++ part_tokens ts)

  pub arg_tokens : Tys → List Tok
  arg_tokens Tys.nil = []
  arg_tokens (Tys.cons t ts) = tokens Level.atom t ++ arg_tokens ts

  pub part_tokens : Tys → List Tok
  part_tokens Tys.nil = []
  part_tokens (Tys.cons t ts) = Tok.sym (codes ",") ∷ (tokens Level.top t ++ part_tokens ts)
