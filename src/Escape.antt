-- ===== src/Escape.antt =====
-- src/escape.rs: which functions cannot have handed a pointer to C. The set of foreign symbols is
-- the argument `is_ext` (`ck.ext.contains_key`); a hash map or set is a list.
pub mod CallMap
pub mod Taint
pub mod Exact
mod Examples
use vibelang.Base.{
  ℕ, zero, suc, Text, Bool, true, false, not, ◌&&◌, Option, none, some, List, [], ◌∷◌, ◌++◌, map,
  any, contains, text_eq, length, if◌then◌else◌,
}
use vibelang.Ast.{Expr, children, FunDecl, Module}
use vibelang.Ast.Fold.{fold}
use vibelang.Ast.Names.{funs}

pub concat : List (List Text) → List Text
concat [] = []
concat (ns ∷ nss) = ns ++ concat nss

pub named : Expr → List Text
named (Expr.var _ n) = n ∷ []
named (Expr.ctor _ n) = n ∷ []
named _ = []

-- `collect`: every name that an expression mentions.
unfoldable pub collect : Expr → List Text
unfolding fold concat named
collect = fold (λ e below. named e ++ concat below)

abbrev pub Entry : Type 0
Entry = Text × List Text

abbrev pub Calls : Type 0
Calls = List Entry

-- `calls.insert(name, named)`.
unfoldable pub insert : Text → List Text → Calls → Calls
insert n ns [] = (n, ns) ∷ []
insert n ns ((m, ms) ∷ cs) = if text_eq m n then (n, ns) ∷ cs else (m, ms) ∷ insert n ns cs

unfoldable pub call_map : List FunDecl → Calls → Calls
unfolding insert collect
call_map [] cs = cs
call_map (f ∷ fs) cs = call_map fs (insert f.name (collect f.body) cs)

-- The names inserted in the first loop: functions that mention a foreign symbol.
unfoldable pub direct : (Text → Bool) → List FunDecl → List Text
unfolding collect
direct is_ext [] = []
direct is_ext (f ∷ fs) =
    let rest = direct is_ext fs in if any is_ext (collect f.body) then f.name ∷ rest else rest

-- The entries that a round adds.
abbrev pub grows : List Text → Entry → Bool
grows tainted (n, cs) = not (contains tainted n) && any (contains tainted) cs

unfoldable pub grown : Calls → List Text → List Text
grown [] tainted = []
grown ((n, ns) ∷ cs) tainted =
    let rest = grown cs tainted in if grows tainted (n, ns) then n ∷ rest else rest

-- The `loop`, on fuel; `none` means that the fuel ran out.
unfoldable pub taint_loop : ℕ → Calls → List Text → Option (List Text)
unfolding grown
taint_loop zero calls tainted = none
taint_loop (suc f) calls tainted = elim (grown calls tainted) [
  | [] ↦ some tainted
  | n ∷ ns ↦ taint_loop f calls (tainted ++ n ∷ ns)
]

unfoldable pub release : List FunDecl → List Text → List Text
release [] tainted = []
release (f ∷ fs) tainted =
    if not f.ghost && not (contains tainted f.name)
    then f.name ∷ release fs tainted
    else release fs tainted

-- `releasable`, on fuel for one round more than there are functions.
unfoldable pub releasable : (Text → Bool) → Module → Option (List Text)
unfolding funs call_map direct taint_loop release
releasable is_ext m =
    elim (taint_loop (suc (length (call_map (funs m) []))) (call_map (funs m) [])
      (direct is_ext (funs m))) [ none ↦ none | some tainted ↦ some (release (funs m) tainted) ]
