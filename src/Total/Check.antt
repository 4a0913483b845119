-- ===== src/Total/Check.antt =====
-- src/total.rs, `diverges` and `check`: its two passes for any call components `comp` (one number for
-- each function), and the whole of it with those of `call_components`. `none` is an overflow panic.
pub mod Passes
pub mod Decreasing
use vibelang.Base.{
  ℕ, suc, ◌+◌, Text, Bool, true, false, not, ◌&&◌, ◌||◌, Option, none, some, List, [], ◌∷◌, ◌++◌,
  map, codes, ◌==◌, ltb, get_or, any, all, contains, text_eq, if◌then◌else◌,
}
use vibelang.Diag.{Span, Diag, error, with_path}
use vibelang.Ast.{Ty, Expr, FunDecl, Module, span_of}
use vibelang.Ast.Names.{path, param_names, funs}
use vibelang.Total.Lin.{Terms, Lin, ◌>>=◌, lin_var, lin, components, delta, is_drop, lex_decreases}
use vibelang.Total.Components.{or_zero, call_components}
use vibelang.Total.Calls.{Call, index_of, calls_in}

effectful : Ty → Bool
effectful (Ty.eff _) = true
effectful (Ty.fun _ r) = effectful r
effectful _ = false

-- `diverges`.
unfoldable pub diverges : FunDecl → Bool
unfolding effectful
diverges f = elim f.ret [ none ↦ false | some t ↦ effectful t ]

count : ℕ → List ℕ → ℕ
count c [] = 0
count c (d ∷ ds) = (if c == d then 1 else 0) + count c ds

-- Every atom of the form is one of the names.
pub atoms_in : List Text → Terms → Bool
atoms_in params [] = true
atoms_in params ((a, _) ∷ ts) = contains params a && atoms_in params ts

-- The functions of a module, with what `check` computes of each before its passes.
pub record Program : Type 0 where
  pub funs : List FunDecl
  pub params : List (List Text)
  pub calls : List (List Call)
  pub comp : List ℕ

-- The calls of each function.
abbrev pub calls_of_program : List FunDecl → List (List Call)
calls_of_program fs = map (λ f. calls_in f.body (index_of fs)) fs

unfoldable pub program : List FunDecl → List ℕ → Program
program fs comp = record {
  funs = fs;
  params = map param_names fs;
  calls = calls_of_program fs;
  comp = comp;
}

abbrev pub params_at : Program → ℕ → List Text
params_at p i = get_or p.params i []

abbrev pub calls_at : Program → ℕ → List Call
calls_at p i = get_or p.calls i []

unfoldable pub same_group : Program → ℕ → ℕ → Bool
same_group p i j = get_or p.comp i 0 == get_or p.comp j 0

-- `recursive[i]`: another function shares the component, or the function calls itself.
unfoldable pub recursive : Program → ℕ → Bool
unfolding count
recursive p i = ltb 1 (count (get_or p.comp i 0) p.comp) || any (λ c. c.callee == i) (calls_at p i)

abbrev pub Measure : Type 0
Measure = List Lin

abbrev pub Found : Type 0
Found = Option Measure × List Diag

abbrev no_measure : FunDecl → Span → Diag
no_measure f s = with_path (path f.home f.name) (error s (codes "total.no_measure"))

pub accept_measure : FunDecl → List Text → Expr → Measure → Found
unfolding atoms_in
accept_measure f params e parts =
    if all (λ l. atoms_in params l.terms) parts
    then (some parts, [])
    else (none, no_measure f (span_of e) ∷ [])

pub accept_name : FunDecl → Option Text → Found
accept_name f none = (none, no_measure f f.span ∷ [])
accept_name f (some name) = (some (lin_var name ∷ []), [])

module _ (debug : Expr → Text) where
  pub forms : List Expr → Option Measure
  unfolding lin
  forms [] = some []
  forms (e ∷ es) = do l ← lin debug e; ls ← forms es; some (l ∷ ls)

  -- Whether `name` drops by a positive constant at every call of `i` to itself.
  pub drops_at : List Text → Text → ℕ → List Call → Option Bool
  unfolding delta
  drops_at params name i [] = some true
  drops_at params name i (c ∷ cs) =
      let rest = drops_at params name i cs in
      if c.callee == i
      then (do
        d ← delta debug (lin_var name) (lin_var name) params c.args
        if is_drop d then rest else some false)
      else rest

  -- `params[i].iter().find(…)`.
  pub find_measure : List Text → List Text → ℕ → List Call → Option (Option Text)
  unfolding drops_at
  find_measure params [] i cs = some none
  find_measure params (name ∷ names) i cs =
      let rest = find_measure params names i cs in
      (do d ← drops_at params name i cs; if d then some (some name) else rest)

  -- A measure for a recursive function whose result is pure: the one that is written, or a
  -- parameter that decreases.
  pub measure_from : Program → ℕ → FunDecl → Option Expr → Option Found
  unfolding forms accept_measure find_measure accept_name
  measure_from p i f (some e) = do
    parts ← forms (components e)
    some (accept_measure f (params_at p i) e parts)
  measure_from p i f none =
      let inferred = find_measure (params_at p i) (params_at p i) i (calls_at p i) in
      if all (λ c. c.callee == i || not (same_group p i c.callee)) (calls_at p i)
      then (do name ← inferred; some (accept_name f name))
      else some (accept_name f none)

  -- Pass 1 at one function.
  unfoldable pub find_pass : Program → ℕ → FunDecl → Option Found
  unfolding measure_from
  find_pass p i f =
      if not (recursive p i) || diverges f then some (none, []) else measure_from p i f f.measure

  unfoldable pub pass1 : Program → ℕ → List FunDecl → Option (List (Option Measure) × List Diag)
  unfolding find_pass
  pass1 p i [] = some ([], [])
  pass1 p i (f ∷ fs) = do
    (m, ds) ← find_pass p i f
    (ms, es) ← pass1 p (suc i) fs
    some (m ∷ ms, ds ++ es)

  -- Pass 2 at one call: `measures` holds what pass 1 found.
  unfoldable pub check_call :
      Program → List (Option Measure) → ℕ → FunDecl → Measure → Call → Option (List Diag)
  unfolding lex_decreases
  check_call p measures i f mi c =
      if not (same_group p i c.callee) then some [] else elim (get_or measures c.callee none) [
        | none ↦ some []
        | some mj ↦ do
          ok ← lex_decreases debug mi mj (params_at p c.callee) c.args
          some (
              if ok
              then []
              else with_path (path f.home f.name) (error c.span (codes "total.not_decreasing"))
                ∷ [])
      ]

  unfoldable pub check_calls :
      Program → List (Option Measure) → ℕ → FunDecl → Measure → List Call → Option (List Diag)
  unfolding check_call
  check_calls p measures i f mi [] = some []
  check_calls p measures i f mi (c ∷ cs) = do
    ds ← check_call p measures i f mi c
    es ← check_calls p measures i f mi cs
    some (ds ++ es)

  abbrev pub calls_of :
      Program → List (Option Measure) → ℕ → FunDecl → Option Measure → Option (List Diag)
  calls_of p measures i f none = some []
  calls_of p measures i f (some mi) = check_calls p measures i f mi (calls_at p i)

  unfoldable pub pass2 : Program → List (Option Measure) → ℕ → List FunDecl → Option (List Diag)
  unfolding check_calls
  pass2 p measures i [] = some []
  pass2 p measures i (f ∷ fs) = do
    ds ← calls_of p measures i f (get_or measures i none)
    es ← pass2 p measures (suc i) fs
    some (ds ++ es)

  -- `check`, from the components on.
  unfoldable pub check_groups : List FunDecl → List ℕ → Option (List Diag)
  unfolding program pass1 pass2
  check_groups fs comp = do
    (measures, ds) ← pass1 (program fs comp) 0 fs
    es ← pass2 (program fs comp) measures 0 fs
    some (ds ++ es)

  unfoldable pub numbered : List FunDecl → Option (List (Option ℕ)) → Option (List Diag)
  unfolding check_groups
  numbered fs none = none
  numbered fs (some comp) = check_groups fs (map or_zero comp)

  -- `check`.
  unfoldable pub check : Module → Option (List Diag)
  unfolding numbered call_components
  check m = numbered (funs m) (call_components (calls_of_program (funs m)))
