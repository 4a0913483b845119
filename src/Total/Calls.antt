-- ===== src/Total/Calls.antt =====
-- src/total.rs, `calls_in` and `scan`: every way a body can reach a function of the module.
pub mod Mentions
use vibelang.Base.{
  ℕ, suc, Text, Bool, true, false, Option, none, some, List, [], ◌∷◌, ◌++◌, map, ◌≡◌, refl, sym, ap,
  ◌↔◌, text_eq, if◌then◌else◌, In, here, there, In-append, In-append_left, In-append_right,
  Option-cases, ◌⊎◌, inl, inr, ◌∙◌,
}
use vibelang.Diag.{Span}
use vibelang.Ast.{Expr, Exprs, exprs, children, FunDecl, span_of}
use vibelang.Ast.Fold.{fold, fold_lem, Expr-induction}

pub record Call : Type 0 where
  pub callee : ℕ
  pub args : List Expr
  pub span : Span

-- The map from a function's name to its position: of two functions of one name, the later.
index_from : ℕ → List FunDecl → Text → Option ℕ
index_from i [] n = none
index_from i (f ∷ fs) n = elim (index_from (suc i) fs n) [
  | some j ↦ some j
  | none ↦ if text_eq f.name n then some i else none
]

unfoldable pub index_of : List FunDecl → Text → Option ℕ
unfolding index_from
index_of = index_from 0

pub flatten_calls : List (List Call) → List Call
flatten_calls [] = []
flatten_calls (cs ∷ css) = cs ++ flatten_calls css

call_args : Expr → List Expr
call_args (Expr.app _ _ args) = exprs args
call_args _ = []

bare : Option ℕ → Span → List Call
bare none s = []
bare (some i) s = record { callee = i; args = []; span = s } ∷ []

skip_head : List (List Call) → List (List Call)
skip_head [] = []
skip_head (cs ∷ css) = css

module _ (index : Text → Option ℕ) where
  -- The head of a saturated call of a module function, and a bare mention of one.
  unfoldable pub head_index : Expr → Option ℕ
  head_index (Expr.app _ (Expr.var _ n) _) = index n
  head_index _ = none

  unfoldable pub mention_index : Expr → Option ℕ
  mention_index (Expr.var _ n) = index n
  mention_index _ = none

  -- `scan` at one expression, with the calls found below it. Under a saturated call the head is
  -- not looked at again.
  pub scan_node : Option ℕ → Expr → List (List Call) → List Call
  scan_node (some i) e below =
      record { callee = i; args = call_args e; span = span_of e } ∷ flatten_calls (skip_head below)
  scan_node none e below = bare (mention_index e) (span_of e) ++ flatten_calls below

  unfoldable pub scan : Expr → List Call
  unfolding fold scan_node head_index mention_index call_args bare skip_head flatten_calls span_of
  scan = fold (λ e below. scan_node (head_index e) e below)

  -- The equation of the source's recursion.
  pub scan_lem : (e : Expr) → scan e ≡ scan_node (head_index e) e (map scan (children e))
  unfolding scan
  scan_lem e = fold_lem (λ e below. scan_node (head_index e) e below) e

-- `calls_in`.
unfoldable pub calls_in : Expr → (Text → Option ℕ) → List Call
unfolding scan
calls_in body index = scan index body
