-- ===== src/Patch/Deps.antt =====
-- src/patch.rs, `deps`: the callees of every function, the callers that follow from them, and the
-- text that lists both.
pub mod Graph
use vibelang.Base.{
  ℕ, zero, suc, Text, Bool, true, false, ◌&&◌, ◌||◌, List, [], ◌∷◌, ◌++◌, codes, ◌==◌, any, keep,
  map, text_eq, contains, join, if◌then◌else◌,
}
use vibelang.Base.Sorting.{sort, dedup, text_lt}
use vibelang.Ast.{Expr, children, FunDecl, Module}
use vibelang.Ast.Fold.{fold}
use vibelang.Ast.Names.{funs}

-- A call into another module, which is a field of a constructor.
abbrev pub qualified : Expr → List Text
qualified (Expr.field _ (Expr.ctor _ m) n) = (m ++ b'.' ∷ n) ∷ []
qualified _ = []

abbrev pub plain_name : Expr → List Text
plain_name (Expr.var _ n) = n ∷ []
plain_name (Expr.ctor _ n) = n ∷ []
plain_name _ = []

abbrev pub flatten : List (List Text) → List Text
flatten [] = []
flatten (ns ∷ nss) = ns ++ flatten nss

-- What `collect_calls` adds at a node, with what it adds below.
abbrev pub call_names : List Text → List Text → List Text → List Text
call_names [] own below = own ++ below
call_names (q ∷ qs) own below = q ∷ qs

-- `collect_calls`.
unfoldable pub collect_calls : Expr → List Text
unfolding fold
collect_calls = fold (λ e below. call_names (qualified e) (plain_name e) (flatten below))

abbrev pub has_dot : Text → Bool
has_dot n = any (λ c. c == b'.') n

-- The test of `retain`.
abbrev pub is_kept : List Text → Text → Bool
is_kept known c = contains known c || has_dot c

-- The body of the first loop of `deps`: the calls of a function.
unfoldable pub callees : List Text → FunDecl → List Text
unfolding collect_calls
callees known f = dedup text_eq (sort text_lt (keep (is_kept known) (collect_calls f.body)))

-- `known`.
abbrev pub known_names : List FunDecl → List Text
known_names fs = map (λ (f : FunDecl). f.name) fs

abbrev pub Edge : Type 0
Edge = Text × Text

abbrev pub edge_lt : Edge → Edge → Bool
edge_lt (a, x) (b, y) = text_lt a b || (text_eq a b && text_lt x y)

abbrev pub edge_eq : Edge → Edge → Bool
edge_eq (a, x) (b, y) = text_eq a b && text_eq x y

-- What the first loop pushes on `callers`.
unfoldable pub edges : List Text → List FunDecl → List Edge
unfolding callees
edges known [] = []
edges known (f ∷ fs) = map (λ c. (c, f.name)) (callees known f) ++ edges known fs

-- `callers`, after `sort` and `dedup`.
unfoldable pub caller_edges : List FunDecl → List Edge
unfolding edges
caller_edges fs = dedup edge_eq (sort edge_lt (edges (known_names fs) fs))

-- `up`.
unfoldable pub callers : List FunDecl → FunDecl → List Text
unfolding caller_edges
callers fs f = map (λ (e : Edge). e.1) (keep (λ (e : Edge). text_eq e.0 f.name) (caller_edges fs))

-- `join`.
unfoldable pub joined : Text → List Text → Text
joined m [] = codes "-"
joined m (n ∷ ns) = join (codes " ") (map (λ n. if has_dot n then n else m ++ b'.' ∷ n) (n ∷ ns))

-- A line of the listing.
abbrev line : Text → FunDecl → Text → List Text → Text
line m f arrow names = f.home ++ b'.' ∷ (f.name ++ (arrow ++ (joined m names ++ 10 ∷ [])))

abbrev pub lines : (FunDecl → Text) → List FunDecl → Text
lines line_of [] = []
lines line_of (f ∷ fs) = line_of f ++ lines line_of fs

-- `deps`.
unfoldable pub deps : Module → Text
unfolding callees callers joined
deps m =
    let fs = funs m in
    lines (λ f. line m.name f (codes " -> ") (callees (known_names fs) f)) fs
    ++ lines (λ f. line m.name f (codes " <- ") (callers fs f)) fs
