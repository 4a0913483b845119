-- ===== src/Ast/Names.antt =====
-- src/ast.rs: semantic paths, the names that patterns and parameters bind, and the views of a
-- module's declarations.
use vibelang.Base.{
  ℕ, ◌+◌, Text, Bool, false, Option, none, some, List, [], ◌∷◌, ◌++◌, ◌≡◌, refl, arith, length,
  length-append, ◌==◌, if◌then◌else◌,
}
use vibelang.Ast.{Pat, Pats, Param, FunDecl, TypeDecl, ExtBlock, Decl, Module}

-- `str::strip_prefix`.
unfoldable pub strip_prefix : Text → Text → Option Text
strip_prefix [] s = some s
strip_prefix (c ∷ p) [] = none
strip_prefix (c ∷ p) (d ∷ s) = if c == d then strip_prefix p s else none

unfoldable pub starts_with_dot : Text → Bool
starts_with_dot [] = false
starts_with_dot (c ∷ s) = c == b'.'

abbrev qualify : Text → Text → Text
qualify home name = home ++ b'.' ∷ name

path_of : Option Text → Text → Text → Text
path_of none home name = qualify home name
path_of (some rest) home name = if starts_with_dot rest then name else qualify home name

-- `path`.
unfoldable pub path : Text → Text → Text
unfolding path_of strip_prefix starts_with_dot
path home name = path_of (strip_prefix home name) home name

strip_prefix-append : (p s : Text) → strip_prefix p (p ++ s) ≡ some s
unfolding strip_prefix
strip_prefix-append [] s = refl
strip_prefix-append (c ∷ p) s = ground (arith, strip_prefix-append p s)

-- A path is not qualified twice: qualifying what is already qualified by its home changes nothing.
pub path-path : (home name : Text) → path home (path home name) ≡ path home name
unfolding path
path-path home name = ground (arith, strip_prefix-append home (b'.' ∷ name))

-- `Pat::names`.
unfoldable mutual
  pub pat_names : Pat → List Text
  pat_names (Pat.var n) = n ∷ []
  pat_names (Pat.ctor _ ps) = pats_names ps
  pat_names (Pat.list ps) = pats_names ps
  pat_names (Pat.tuple ps) = pats_names ps
  pat_names _ = []

  pub pats_names : Pats → List Text
  pats_names Pats.nil = []
  pats_names (Pats.cons p ps) = pat_names p ++ pats_names ps

names_in : List Param → List Text
names_in [] = []
names_in (p ∷ ps) = p.names ++ names_in ps

arity_of : List Param → ℕ
arity_of [] = 0
arity_of (p ∷ ps) = length p.names + arity_of ps

-- `FunDecl::param_names` and `FunDecl::arity`.
unfoldable pub param_names : FunDecl → List Text
unfolding names_in
param_names f = names_in f.params

unfoldable pub arity : FunDecl → ℕ
unfolding arity_of
arity f = arity_of f.params

length-names_in : (ps : List Param) → length (names_in ps) ≡ arity_of ps
unfolding names_in arity_of
length-names_in [] = refl
length-names_in (p ∷ ps) =
    omega (arith, length-append {0} p.names (names_in ps), length-names_in ps)

-- The arity of a function is the number of its parameter names.
pub length-param_names : (f : FunDecl) → length (param_names f) ≡ arity f
unfolding param_names arity
length-param_names f = length-names_in f.params

funs_in : List Decl → List FunDecl
funs_in [] = []
funs_in (Decl.fun_decl f ∷ ds) = f ∷ funs_in ds
funs_in (_ ∷ ds) = funs_in ds

-- `Module::funs`.
unfoldable pub funs : Module → List FunDecl
unfolding funs_in
funs m = funs_in m.decls

types_in : List Decl → List TypeDecl
types_in [] = []
types_in (Decl.type_decl t ∷ ds) = t ∷ types_in ds
types_in (Decl.ext e ∷ ds) = e.types ++ types_in ds
types_in (_ ∷ ds) = types_in ds

-- `Module::types`.
unfoldable pub types : Module → List TypeDecl
unfolding types_in
types m = types_in m.decls

exts_in : List Decl → List ExtBlock
exts_in [] = []
exts_in (Decl.ext e ∷ ds) = e ∷ exts_in ds
exts_in (_ ∷ ds) = exts_in ds

-- `Module::exts`.
unfoldable pub exts : Module → List ExtBlock
unfolding exts_in
exts m = exts_in m.decls

exports_in : List Decl → List Text
exports_in [] = []
exports_in (Decl.exp names _ ∷ ds) = names ++ exports_in ds
exports_in (_ ∷ ds) = exports_in ds

-- `Module::exports`.
unfoldable pub exports : Module → List Text
unfolding exports_in
exports m = exports_in m.decls
