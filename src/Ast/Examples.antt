-- ===== src/Ast/Examples.antt =====
-- src/ast.rs on concrete names.
use vibelang.Base.{none, [], ◌∷◌, codes, ◌≡◌, refl, false}
use vibelang.Diag.{Span}
use vibelang.Ast.{Expr, FunDecl}
use vibelang.Ast.Names.{path, arity}

abbrev nowhere : Span
nowhere = record { file = 0; line = 1; col = 1; len = 1 }

-- The home is a prefix of the name, and the next character is no dot.
path_of_prefix : path (codes "Std") (codes "Stdio") ≡ codes "Std.Stdio"
unfolding path
path_of_prefix = refl

-- `f (x y:U64) z`.
abbrev three : FunDecl
three = record {
  name = codes "f";
  home = [];
  ghost = false;
  params =
      record { names = codes "x" ∷ codes "y" ∷ []; ty = none; refines = []; span = nowhere }
      ∷ record { names = codes "z" ∷ []; ty = none; refines = []; span = nowhere }
      ∷ [];
  ret = none;
  body = Expr.unit nowhere;
  measure = none;
  span = nowhere;
}

three-arity : arity three ≡ 3
unfolding arity
three-arity = refl
