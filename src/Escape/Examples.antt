-- ===== src/Escape/Examples.antt =====
-- src/escape.rs on a module with one function that calls C, one that calls it, and one that does
-- neither.
use vibelang.Base.{
  Text, Bool, false, none, some, List, [], ◌∷◌, codes, ◌≡◌, ◌<◌, ◌↔◌, refl, In, text_eq, contains,
  arith,
}
use vibelang.Diag.{Span}
use vibelang.Ast.{Expr, Exprs, FunDecl, Decl, Module}
use vibelang.Ast.Names.{funs}
use vibelang.Escape.{Calls, grown, taint_loop, releasable}
use vibelang.Escape.CallMap.{Distinct}
use vibelang.Escape.Taint.{clean, taint_loop-total}
use vibelang.Escape.Exact.{Reaches, releasable_exact}

abbrev nowhere : Span
nowhere = record { file = 0; line = 1; col = 1; len = 1 }

abbrev fun_of : Text → Text → FunDecl
fun_of name callee = record {
  name = name;
  home = codes "Demo";
  ghost = false;
  params = [];
  ret = none;
  body = Expr.app nowhere (Expr.var nowhere callee) Exprs.nil;
  measure = none;
  span = nowhere;
}

-- `open` calls the foreign `fopen`, `load` calls `open`, and `pure` calls `len`.
abbrev demo : Module
demo = record {
  name = codes "Demo";
  decls =
      Decl.fun_decl (fun_of (codes "load") (codes "open"))
      ∷ Decl.fun_decl (fun_of (codes "open") (codes "fopen"))
      ∷ Decl.fun_decl (fun_of (codes "pure") (codes "len"))
      ∷ [];
  span = nowhere;
}

abbrev is_ext : Text → Bool
is_ext n = text_eq n (codes "fopen")

demo_released : releasable is_ext demo ≡ some (codes "pure" ∷ [])
unfolding releasable text_eq contains
demo_released = refl

demo-Distinct : Distinct (funs demo)
unfolding funs text_eq
demo-Distinct = (refl, (refl, (refl, tt)))

releasable_exact_example :
    (r : List Text) × (releasable is_ext demo ≡ some r)
    × ((n : Text)
        → In n r ↔ (
            (f : FunDecl) × In f (funs demo)
            × (f.name ≡ n)
            × (f.ghost ≡ false)
            × ¬ Reaches is_ext (funs demo) n))
releasable_exact_example = releasable_exact is_ext demo demo-Distinct

abbrev chain : Calls
chain = (codes "load", codes "open" ∷ []) ∷ (codes "open", codes "fopen" ∷ []) ∷ []

chain-clean : clean chain (codes "open" ∷ []) < 2
unfolding clean contains text_eq
chain-clean = omega arith

taint_loop-total_example :
    (t : List Text) × (taint_loop 2 chain (codes "open" ∷ []) ≡ some t) × (grown chain t ≡ [])
taint_loop-total_example = taint_loop-total 2 chain (codes "open" ∷ []) chain-clean
