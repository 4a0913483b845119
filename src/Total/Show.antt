-- ===== src/Total/Show.antt =====
-- src/total.rs, `show`: the printer that keys the opaque atoms of a measure. What the derived
-- `Debug` prints for the other expressions is a parameter.
use vibelang.Base.{suc, Text, List, [], ◌∷◌, ◌++◌, codes, join, decimal}
use vibelang.Base.Int.{ℤ, pos, negsuc}
use vibelang.Ast.{Expr, Exprs}

-- `i128::to_string`.
unfoldable pub decimal_ℤ : ℤ → Text
decimal_ℤ (pos n) = decimal n
decimal_ℤ (negsuc n) = b'-' ∷ decimal (suc n)

module _ (debug : Expr → Text) where
  unfoldable mutual
    pub show : Expr → Text
    show (Expr.int _ n) = decimal_ℤ n
    show (Expr.var _ n) = n
    show (Expr.ctor _ n) = n
    show (Expr.neg _ a) = b'-' ∷ show a
    show (Expr.binop _ op a b) =
        codes "(" ++ (show a ++ (codes " " ++ (op ++ (codes " " ++ (show b ++ codes ")")))))
    show (Expr.field _ a f) = show a ++ (codes "." ++ f)
    show (Expr.borrow _ a) = codes "&" ++ show a
    show (Expr.app _ h args) =
        codes "(" ++ (show h ++ (codes " " ++ (join (codes " ") (shows args) ++ codes ")")))
    show e = debug e

    pub shows : Exprs → List Text
    shows Exprs.nil = []
    shows (Exprs.cons e es) = show e ∷ shows es
