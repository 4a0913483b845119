-- ===== src/Patch/Examples.antt =====
-- src/patch.rs on a module of two functions, of which the first calls the second and another module.
use vibelang.Base.{
  ℕ, ◌+◌, Text, true, false, none, List, [], ◌∷◌, ◌++◌, codes, ◌≡◌, ◌≢◌, ◌↔◌, refl, arith, text_eq,
  contains, join, In, here, there, inr,
}
use vibelang.Base.Sorting.{IsAscending, text_lt, sort, dedup}
use vibelang.Diag.{Span}
use vibelang.Ast.{Expr, Exprs, FunDecl, Decl, Module}
use vibelang.Ast.Names.{funs, path}
use vibelang.Patch.{Node, text, nodes, apply, hash, without_newlines}
use vibelang.Patch.Slices.{between}
use vibelang.Patch.Nodes.{IsPlaced, nodes-IsPlaced, apply-text}
use vibelang.Patch.Apply.{text-apply}
use vibelang.Patch.Hash.{hash_change}
use vibelang.Patch.Deps.{callees, callers, known_names, is_kept, deps}
use vibelang.Patch.Deps.Graph.{Calls, callees_exact, callers_exact}

-- `f x = g x`, an empty line, and `g y = M.h y`.
abbrev source : Text
source = codes "f x = g x" ++ 10 ∷ 10 ∷ (codes "g y = M.h y" ++ 10 ∷ [])

abbrev place : ℕ → ℕ → Span
place line col = record { file = 0; line = line; col = col; len = 1 }

abbrev fun_of : Text → ℕ → Expr → FunDecl
fun_of name line body = record {
  name = name;
  home = codes "D";
  ghost = false;
  params = [];
  ret = none;
  body = body;
  measure = none;
  span = place line 0;
}

abbrev first : FunDecl
first = fun_of (codes "f") 1 (
    Expr.app (place 1 6) (Expr.var (place 1 6) (codes "g"))
      (Exprs.cons (Expr.var (place 1 8) (codes "x")) Exprs.nil))

abbrev second : FunDecl
second = fun_of (codes "g") 3 (
    Expr.app (place 3 7) (Expr.field (place 3 7) (Expr.ctor (place 3 6) (codes "M")) (codes "h"))
      (Exprs.cons (Expr.var (place 3 10) (codes "y")) Exprs.nil))

abbrev demo : Module
demo = record {
  name = codes "D";
  decls = Decl.fun_decl first ∷ Decl.fun_decl second ∷ [];
  span = place 1 0;
}

abbrev node : Text → ℕ → ℕ → Node
node path start end = record { path = path; start = start; end = end }

abbrev body : Node
body = node (codes "D.f.body") 6 9

abbrev demo_nodes : List Node
demo_nodes =
    node (codes "D.f.sig") 0 3
    ∷ body
    ∷ node (codes "D.f") 0 9
    ∷ node (codes "D.g.sig") 11 14
    ∷ node (codes "D.g.body") 17 22
    ∷ node (codes "D.g") 11 22
    ∷ []

demo_nodes_lem : nodes demo source ≡ demo_nodes
unfolding nodes
demo_nodes_lem = refl

body-In : In body (nodes demo source)
body-In = rw demo_nodes_lem (there here)

demo_listing :
    deps demo
    ≡ codes "D.f -> D.g"
      ++ 10
        ∷ (codes "D.g -> M.h" ++ 10 ∷ (codes "D.f <- -" ++ 10 ∷ (codes "D.g <- D.f" ++ 10 ∷ [])))
unfolding deps funs dedup sort contains text_eq join text_lt
demo_listing = refl

nodes-IsPlaced_example : IsPlaced source body
nodes-IsPlaced_example = nodes-IsPlaced demo source body-In

apply-text_example : apply source body (text body source) ≡ source
apply-text_example = apply-text demo source body-In

text-apply_example :
    (between 6 (6 + 4) (apply source body (codes "1+xx")) ≡ codes "1+xx")
    × (text (node (codes "D.g") 12 23) (apply source body (codes "1+xx")) ≡ codes "g y = M.h y")
unfolding apply without_newlines
text-apply_example =
    text-apply demo source (codes "1+xx") (node (codes "D.g") 11 22) body-In (omega arith)
      (inr (omega arith))

hash_change_example : hash (codes "abc") ≢ hash (codes "axc")
hash_change_example =
    hash_change (codes "a") b'b' b'x' (codes "c") (omega arith) (omega arith) refl
      (λ e. omega (arith, e))

callees_exact_example :
    ((n : Text)
      → In n (callees (known_names (funs demo)) first)
        ↔ (Calls n first.body × (is_kept (known_names (funs demo)) n ≡ true)))
    × IsAscending text_lt (callees (known_names (funs demo)) first)
callees_exact_example = callees_exact (known_names (funs demo)) first

callers_exact_example : In (codes "f") (callers (funs demo) second) ↔ (
    (g : FunDecl) × In g (funs demo)
    × (g.name ≡ codes "f")
    × In (codes "g") (callees (known_names (funs demo)) g))
callers_exact_example = callers_exact (funs demo) second (codes "f")
