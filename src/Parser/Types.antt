-- ===== src/Parser/Types.antt =====
-- src/parser.rs, `ty`, `ty_app` and `type_atom`, on fuel for each call and each round of a loop.
pub mod Steps
pub mod Atoms
pub mod Starts
pub mod Reads
pub mod Loops
pub mod Readable
pub mod RoundTrip
use vibelang.Base.{
  ℕ, zero, suc, ◌-◌, ◌+◌, Text, Bool, true, false, ◌||◌, List, [], ◌∷◌, codes, if◌then◌else◌,
}
use vibelang.Lexer.{Tok, Token, ctor, name, is_sym}
use vibelang.Ast.{Ty, Tys, unit_ty}
use vibelang.Parser.{
  Parser, Parsed, and_then, ok, out_of_fuel, cur, forward, sync, eat_sym, refuse, expect_sym,
  ctor_name,
}

-- The tests of `starts_type_atom`.
abbrev pub is_name : Tok → Bool
is_name (Tok.ctor _) = true
is_name (Tok.name _) = true
is_name _ = false

unfoldable pub starts_atom : Token → Bool
unfolding is_sym
starts_atom t =
    is_name t.tok || is_sym (codes "(") t || is_sym (codes "&") t || is_sym (codes "E!") t

abbrev pub is_ctor : Tok → Bool
is_ctor (Tok.ctor _) = true
is_ctor _ = false

-- A loop of `ty_app` or `type_atom`: an item and the loop after it.
abbrev pub one_more : (Parser → Parsed Ty) → (Parser → Parsed Tys) → Bool × Parser → Parsed Tys
one_more item loop (true, p) = and_then (item p) λ t p'. and_then (loop p') λ ts. ok (Tys.cons t ts)
one_more item loop (false, p) = ok Tys.nil p

-- The type after a prefix.
abbrev pub under : (Ty → Ty) → Parsed Ty → Parsed Ty
under f r = and_then r λ t. ok (f t)

-- `ty`, after its left side.
abbrev pub after_left : (Parser → Parsed Ty) → Ty → Bool × Parser → Parsed Ty
after_left right lhs (true, p) = under (Ty.fun lhs) (right p)
after_left right lhs (false, p) = ok lhs p

-- `ty_app`, without a prefix.
abbrev pub applied : (Parser → Parsed Tys) → (Parser → Parsed Ty) → Parser → Parsed Ty
applied args atom p =
    if is_ctor (cur p).tok
    then (let (n, p') = ctor_name p in and_then (args p') λ ts. ok (Ty.con n ts))
    else atom p

-- The two prefixes of `ty_app` and `type_atom`, and what there is without one.
abbrev pub after_eff : (Parser → Parsed Ty) → (Parser → Parsed Ty) → Bool × Parser → Parsed Ty
after_eff again other (true, p) = under Ty.eff (again p)
after_eff again other (false, p) = other (sync p)

abbrev pub after_ref : (Parser → Parsed Ty) → (Parser → Parsed Ty) → Bool × Parser → Parsed Ty
after_ref again other (true, p) = under Ty.ref (again p)
after_ref again other (false, p) = after_eff again other (eat_sym (codes "E!") p)

abbrev pub closed_parts : Ty → Tys → Ty
closed_parts t Tys.nil = t
closed_parts t (Tys.cons u us) = Ty.tuple (Tys.cons t (Tys.cons u us))

abbrev pub inside : (Parser → Parsed Ty) → (Parser → Parsed Tys) → Parser → Parsed Ty
inside item parts p = and_then (item p) λ t p1. and_then (parts p1) λ ts p2.
    and_then (expect_sym (codes ")") (record p2 { depth = p2.depth - 1 }))
      λ _ p3. ok (closed_parts t ts) p3

-- `type_atom`, after a `(`.
abbrev pub opened : (Parser → Parsed Ty) → (Parser → Parsed Tys) → Parser → Parsed Ty
opened item parts p =
    if is_sym (codes ")") (cur p)
    then ok unit_ty (record p { depth = p.depth - 1; i = p.i + 1 })
    else inside item parts p

-- `type_atom`, without a prefix.
unfoldable pub bare_atom : (Parser → Parsed Ty) → (Parser → Parsed Tys) → Parser → Parsed Ty
unfolding cur is_sym ctor_name expect_sym
bare_atom item parts p = elim (cur p).tok [
  | ctor _ ↦ let (n, p') = ctor_name p in ok (Ty.con n Tys.nil) p'
  | name n ↦ ok (Ty.var n) (forward 1 p)
  | _ ↦
      if is_sym (codes "(") (cur p)
      then opened item parts (record p { i = p.i + 1; depth = suc p.depth })
      else refuse (codes "parse.type") p
]

unfoldable mutual
  unfolding cur is_sym sync eat_sym ctor_name starts_atom bare_atom

  -- `ty`.
  pub ty : ℕ → Parser → Parsed Ty
  ty zero p = out_of_fuel
  ty (suc f) p = and_then (ty_app f p) λ lhs p'. after_left (ty f) lhs (eat_sym (codes "->") p')

  -- `ty_app`.
  pub ty_app : ℕ → Parser → Parsed Ty
  ty_app zero p = out_of_fuel
  ty_app (suc f) p = after_ref (ty_app f) (applied (args f) (type_atom f)) (eat_sym (codes "&") p)

  -- The loop of `ty_app`.
  pub args : ℕ → Parser → Parsed Tys
  args zero p = out_of_fuel
  args (suc f) p = one_more (type_atom f) (args f) (starts_atom (cur (sync p)), sync p)

  -- `type_atom`.
  pub type_atom : ℕ → Parser → Parsed Ty
  type_atom zero p = out_of_fuel
  type_atom (suc f) p = after_ref (type_atom f) (bare_atom (ty f) (parts f)) (eat_sym (codes "&") p)

  -- The loop of `type_atom`.
  pub parts : ℕ → Parser → Parsed Tys
  parts zero p = out_of_fuel
  parts (suc f) p = one_more (ty f) (parts f) (eat_sym (codes ",") p)
