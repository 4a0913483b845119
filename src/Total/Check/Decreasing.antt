-- ===== src/Total/Check/Decreasing.antt =====
-- src/total.rs, `check`: a module without diagnostics has a measure for every pure recursive
-- function, and every call inside a group lowers it.
use vibelang.Base.{
  ℕ, zero, suc, Text, true, false, Option, none, some, List, [], ◌∷◌, ◌++◌, map, ◌≡◌, ap, sym, ◌∙◌,
  arith, get_or, get_elem?, In,
}
use vibelang.Diag.{Diag}
use vibelang.Ast.{Expr, FunDecl, Module}
use vibelang.Ast.Names.{param_names, funs}
use vibelang.Total.Lin.{◌>>=◌}
use vibelang.Total.Lin.Eval.{Valuation, >>=-eq-some, eval}
use vibelang.Total.Lin.Decrease.{LexLess, entry, lex_decreases-LexLess}
use vibelang.Total.Calls.{Call}
use vibelang.Total.Components.{or_zero, call_components}
use vibelang.Total.Check.Passes.{
  append-eq-nil, some-eq, IsMeasure, pass1_at, pass2_at, find_pass-IsMeasure, pass2_call,
}
use vibelang.Total.Check.{
  diverges, Program, program, params_at, calls_at, same_group, recursive, Measure, pass1, pass2,
  check_groups, calls_of_program, numbered, check,
}

module _ {A B : Type 0} where
  get_or-map :
      (g : A → B) (xs : List A) (i : ℕ) (d : B) {x : A}
      → get_elem? xs i ≡ some x
      → get_or (map g xs) i d ≡ g x
  get_or-map g [] i d h = absurd (cc h)
  get_or-map g (y ∷ xs) zero d h = ap g cc
  get_or-map g (y ∷ xs) (suc i) d h = get_or-map g xs i d h

-- A function that `check` must find a measure for: recursive, with a pure result.
pub record IsPureRecursive (p : Program) (i : ℕ) (f : FunDecl) : Type 0 where
  pub at : get_elem? p.funs i ≡ some f
  pub is_recursive : recursive p i ≡ true
  pub is_pure : diverges f ≡ false

module _ (debug : Expr → Text) (fs : List FunDecl) (comp : List ℕ) where
  abbrev whole : Program
  whole = program fs comp

  measure_at :
      (ms : List (Option Measure)) (i : ℕ) (f : FunDecl)
      → pass1 debug whole 0 fs ≡ some (ms, [])
      → IsPureRecursive whole i f
      → (mi : Measure) × (get_or ms i none ≡ some mi) × IsMeasure debug f mi
  unfolding program
  measure_at ms i f h r =
      find_pass-IsMeasure debug whole i f (get_or-map param_names fs i [] r.at) r.is_recursive
        r.is_pure (pass1_at debug whole fs 0 i i (omega arith) h r.at)

  check_groups-eq :
      check_groups debug fs comp ≡ some []
      → (ms : List (Option Measure)) × (pass1 debug whole 0 fs ≡ some (ms, []))
        × (pass2 debug whole ms 0 fs ≡ some [])
  unfolding check_groups
  check_groups-eq h =
      let (r, k1, x) =
        >>=-eq-some (pass1 debug whole 0 fs)
          (λ r. pass2 debug whole r.0 0 fs >>= λ es. some (r.1 ++ es)) h in
      let (es, k2, y) = >>=-eq-some (pass2 debug whole r.0 0 fs) (λ es. some (r.1 ++ es)) x in
      let (p, q) = append-eq-nil r.1 es (some-eq y) in
      (r.0, k1 ∙ ap (λ (t : List Diag). some (r.0, t)) p, k2 ∙ ap some q)

  -- If `check` has no diagnostics for a module, two pure recursive functions of one group have
  -- measures, as written or inferred, and at every call from the first to the second the measure
  -- of the callee on entry is lexicographically below that of the caller, whatever the atoms are
  -- worth.
  pub check_groups-LexLess :
      (i j : ℕ) (f g : FunDecl) (c : Call)
      → check_groups debug fs comp ≡ some []
      → IsPureRecursive whole i f
      → IsPureRecursive whole j g
      → same_group whole i j ≡ true
      → In c (calls_at whole i)
      → c.callee ≡ j
      → (mi : Measure) × (mj : Measure) × IsMeasure debug f mi
        × IsMeasure debug g mj
        × ((ρ : Valuation)
            → LexLess (map (eval (entry debug ρ (params_at whole j) c.args)) mj) (map (eval ρ) mi))
  unfolding check_groups
  check_groups-LexLess i j f g c h ri rj s m to =
      let (ms, k1, k2) = check_groups-eq h in
      let (mi, ei, wi) = measure_at ms i f k1 ri in
      let (mj, ej, wj) = measure_at ms j g k1 rj in
      let seen = pass2_at debug whole ms fs 0 i i {f = f} (omega arith) k2 ri.at in
      (
        mi,
        mj,
        wi,
        wj,
        λ ρ.
            lex_decreases-LexLess debug ρ (params_at whole j) c.args mi mj
              (pass2_call debug whole ms i j f mi mj c seen ei ej m to s),
      )

-- In a module that the termination check accepts without a diagnostic, let two pure recursive functions
-- share a call component as `call_components` numbers them. At a call of the second in the body of the
-- first, the values of the callee's measure at the arguments are lexicographically below the caller's
-- at the call, whatever the atoms are worth.
pub check-LexLess :
    (debug : Expr → Text)
    → (m : Module) → (comp : List (Option ℕ)) → (i j : ℕ) → (f g : FunDecl) → (c : Call)
    → check debug m ≡ some []
    → call_components (calls_of_program (funs m)) ≡ some comp
    → IsPureRecursive (program (funs m) (map or_zero comp)) i f
    → IsPureRecursive (program (funs m) (map or_zero comp)) j g
    → same_group (program (funs m) (map or_zero comp)) i j ≡ true
    → In c (calls_at (program (funs m) (map or_zero comp)) i)
    → c.callee ≡ j
    → (mi : Measure) × (mj : Measure) × IsMeasure debug f mi
      × IsMeasure debug g mj
      × ((ρ : Valuation)
          → LexLess
              (map
                (eval (entry debug ρ (params_at (program (funs m) (map or_zero comp)) j) c.args))
                mj)
              (map (eval ρ) mi))
unfolding check numbered
check-LexLess debug m comp i j f g c h n =
    check_groups-LexLess debug (funs m) (map or_zero comp) i j f g c
      (sym (ap (numbered debug (funs m)) n) ∙ h)
