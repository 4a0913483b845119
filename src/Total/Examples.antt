-- ===== src/Total/Examples.antt =====
-- src/total.rs on concrete modules.
use vibelang.Base.{
  ℕ, Text, true, false, Option, none, some, List, [], ◌∷◌, map, codes, ◌≡◌, refl, In, here, there,
  contains, text_eq, if◌then◌else◌,
}
use vibelang.Base.Int.{pos, negsuc, ◌*ℤ◌, ◌+ℤ◌, ◌-ℤ◌}
use vibelang.Diag.{Span, error, with_path}
use vibelang.Ast.{Expr, Exprs, FunDecl, Decl, Module, children}
use vibelang.Ast.Names.{path, param_names, funs}
use vibelang.Total.Lin.{Lin, components, lin_var, lin, delta, lex_decreases}
use vibelang.Total.Lin.Eval.{Valuation, eval}
use vibelang.Total.Lin.Meaning.{value, eval-lin}
use vibelang.Total.Lin.Decrease.{LexLess, entry, eval-delta, lex_decreases-LexLess}
use vibelang.Total.Components.{call_components}
use vibelang.Total.Components.Ends.{call_components-total}
use vibelang.Total.Calls.{Call, calls_in, index_of, mention_index, scan}
use vibelang.Total.Calls.Mentions.{Mentions, scan_complete, scan_sound}
use vibelang.Total.Check.{
  diverges, program, params_at, calls_at, same_group, recursive, Measure, check_groups, check,
  calls_of_program,
}
use vibelang.Total.Check.Passes.{IsMeasure}
use vibelang.Total.Check.Decreasing.{IsPureRecursive, check-LexLess}

abbrev nowhere : Span
nowhere = record { file = 0; line = 1; col = 1; len = 1 }

abbrev debug : Expr → Text
debug e = codes "?"

abbrev name_n : Text
name_n = codes "n"

abbrev use_n : Expr
use_n = Expr.var nowhere name_n

-- `n - 1`.
abbrev n_less_one : Expr
n_less_one = Expr.binop nowhere (codes "-") use_n (Expr.int nowhere (pos 1))

abbrev call : Text → Expr → Expr
call f e = Expr.app nowhere (Expr.var nowhere f) (Exprs.cons e Exprs.nil)

abbrev fun_of : Text → Option Expr → Expr → FunDecl
fun_of name m body = record {
  name = name;
  home = codes "Demo";
  ghost = false;
  params = record { names = name_n ∷ []; ty = none; refines = []; span = nowhere } ∷ [];
  ret = none;
  body = body;
  measure = m;
  span = nowhere;
}

-- `even n = odd (n-1) %n` and `odd n = even (n-1) %n`.
abbrev even : FunDecl
even = fun_of (codes "even") (some use_n) (call (codes "odd") n_less_one)

abbrev odd : FunDecl
odd = fun_of (codes "odd") (some use_n) (call (codes "even") n_less_one)

abbrev parity : List FunDecl
parity = even ∷ odd ∷ []

abbrev together : List ℕ
together = 0 ∷ 0 ∷ []

abbrev to_odd : Call
to_odd = record { callee = 1; args = n_less_one ∷ []; span = nowhere }

parity_accepted : check_groups debug parity together ≡ some []
unfolding check_groups recursive diverges components contains param_names text_eq calls_in index_of
    same_group ◌*ℤ◌ ◌+ℤ◌ ◌-ℤ◌
parity_accepted = refl

even_recursive : IsPureRecursive (program parity together) 0 even
unfolding program recursive diverges
even_recursive = record { at = refl; is_recursive = refl; is_pure = refl }

odd_recursive : IsPureRecursive (program parity together) 1 odd
unfolding program recursive diverges
odd_recursive = record { at = refl; is_recursive = refl; is_pure = refl }

even_with_odd : same_group (program parity together) 0 1 ≡ true
unfolding program same_group
even_with_odd = refl

to_odd-In : In to_odd (calls_at (program parity together) 0)
unfolding program calls_in index_of text_eq
to_odd-In = here

abbrev parity_module : Module
parity_module = record {
  name = codes "Demo";
  decls = Decl.fun_decl even ∷ Decl.fun_decl odd ∷ [];
  span = nowhere;
}

parity_components :
    call_components (calls_of_program (funs parity_module)) ≡ some (some 0 ∷ some 0 ∷ [])
unfolding call_components calls_in funs index_of text_eq
parity_components = refl

parity_module_accepted : check debug parity_module ≡ some []
unfolding check funs check_groups recursive diverges components contains param_names text_eq
    calls_in index_of same_group call_components ◌*ℤ◌ ◌+ℤ◌ ◌-ℤ◌
parity_module_accepted = refl

check-LexLess_example :
    (mi : Measure) × (mj : Measure) × IsMeasure debug even mi
    × IsMeasure debug odd mj
    × ((ρ : Valuation)
        → LexLess
            (map
              (eval (entry debug ρ (params_at (program parity together) 1) (n_less_one ∷ [])))
              mj)
            (map (eval ρ) mi))
unfolding funs
check-LexLess_example =
    check-LexLess debug parity_module (some 0 ∷ some 0 ∷ []) 0 1 even odd to_odd
      parity_module_accepted parity_components even_recursive odd_recursive even_with_odd to_odd-In
      refl

-- Nothing decreases in `same n = same n`.
stuck :
    check_groups debug (fun_of (codes "same") none (call (codes "same") use_n) ∷ []) (0 ∷ [])
    ≡ some (with_path (codes "Demo.same") (error nowhere (codes "total.no_measure")) ∷ [])
unfolding check_groups recursive diverges components contains param_names text_eq calls_in index_of
    same_group ◌*ℤ◌ ◌+ℤ◌ ◌-ℤ◌ path
stuck = refl

-- The passes know a parameter by its name: in `down n = let n = 9 in down (n-1)` the argument is
-- 8 at every call, and the call is taken to lower the parameter.
rebound :
    check_groups debug
      (fun_of
          (codes "down")
          none
          (Expr.local nowhere name_n (Expr.int nowhere (pos 9)) (call (codes "down") n_less_one))
        ∷ [])
      (0 ∷ [])
    ≡ some []
unfolding check_groups recursive diverges components contains param_names text_eq calls_in index_of
    same_group ◌*ℤ◌ ◌+ℤ◌ ◌-ℤ◌
rebound = refl

abbrev form_n : Lin
form_n = lin_var name_n

lex_decreases-LexLess_example :
    LexLess
      (map (eval (entry debug (λ x. pos 7) (name_n ∷ []) (n_less_one ∷ []))) (form_n ∷ []))
      (map (eval (λ x. pos 7)) (form_n ∷ []))
unfolding lex_decreases text_eq ◌*ℤ◌ ◌+ℤ◌ ◌-ℤ◌
lex_decreases-LexLess_example =
    lex_decreases-LexLess debug (λ x. pos 7) (name_n ∷ []) (n_less_one ∷ []) (form_n ∷ [])
      (form_n ∷ []) refl

eval-delta_example :
    eval (λ x. pos 7) form_n
    ≡ eval (entry debug (λ x. pos 7) (name_n ∷ []) (n_less_one ∷ [])) form_n +ℤ pos 1
unfolding delta text_eq ◌*ℤ◌ ◌+ℤ◌ ◌-ℤ◌
eval-delta_example =
    eval-delta debug (λ x. pos 7) (name_n ∷ []) (n_less_one ∷ []) form_n form_n refl

eval-lin_example :
    eval (λ x. pos 7) (record { terms = (name_n, pos 1) ∷ []; c = negsuc 0 })
    ≡ value debug (λ x. pos 7) n_less_one
unfolding lin text_eq ◌*ℤ◌ ◌+ℤ◌
eval-lin_example = eval-lin debug (λ x. pos 7) n_less_one refl

-- `map loopy xs` is a call of `loopy` too.
abbrev passed_on : Expr
passed_on = call (codes "map") (Expr.var nowhere (codes "loopy"))

abbrev loopy_first : Text → Option ℕ
loopy_first n = if text_eq n (codes "loopy") then some 0 else none

passed_on_mentions : Mentions loopy_first 0 passed_on
unfolding children mention_index text_eq
passed_on_mentions = Mentions.inside (there here) (Mentions.named refl)

scan_complete_example : (k : Call) × In k (scan loopy_first passed_on) × (k.callee ≡ 0)
scan_complete_example = scan_complete loopy_first passed_on passed_on_mentions

loopy_call_In : In (record { callee = 0; args = []; span = nowhere }) (scan loopy_first passed_on)
unfolding scan text_eq
loopy_call_In = here

scan_sound_example : Mentions loopy_first 0 passed_on
scan_sound_example =
    scan_sound loopy_first passed_on (record { callee = 0; args = []; span = nowhere })
      loopy_call_In

abbrev a_call : ℕ → Call
a_call n = record { callee = n; args = []; span = nowhere }

-- The first two functions call each other, and the third calls the first.
abbrev two_and_one : List (List Call)
two_and_one = (a_call 1 ∷ []) ∷ (a_call 0 ∷ []) ∷ (a_call 0 ∷ []) ∷ []

two_and_one_components : call_components two_and_one ≡ some (some 0 ∷ some 0 ∷ some 1 ∷ [])
unfolding call_components
two_and_one_components = refl

call_components-total_example : (comp : List (Option ℕ)) × (call_components two_and_one ≡ some comp)
call_components-total_example = call_components-total two_and_one
