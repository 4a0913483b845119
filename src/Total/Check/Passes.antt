-- ===== src/Total/Check/Passes.antt =====
-- src/total.rs, the passes of `check`: what each has established at a function or a call when it
-- reports nothing.
use vibelang.Base.{
  ℕ, zero, suc, ◌+◌, Text, true, false, not, ◌||◌, Option, none, some, List, [], ◌∷◌, ◌++◌, ◌≡◌,
  refl, sym, ap, subst, ◌∙◌, arith, ◌==◌, get_or, get_elem?, all, if◌then◌else◌, In, here, there,
  In-cons, Bool-cases, inl, inr,
}
use vibelang.Ast.{Expr, FunDecl}
use vibelang.Ast.Names.{param_names}
use vibelang.Total.Lin.{lin_var, components, ◌>>=◌, lex_decreases}
use vibelang.Total.Lin.Eval.{>>=-eq-some}
use vibelang.Total.Calls.{Call}
use vibelang.Total.Check.{
  diverges, atoms_in, Program, params_at, calls_at, same_group, recursive, Measure, forms, drops_at,
  find_measure, accept_measure, accept_name, measure_from, find_pass, pass1, check_call,
  check_calls, calls_of, pass2,
}

pub append-eq-nil {ℓ} : {A : Type ℓ} (xs ys : List A) → xs ++ ys ≡ [] → (xs ≡ []) × (ys ≡ [])
append-eq-nil [] ys h = (refl, h)
append-eq-nil (x ∷ xs) ys h = absurd (cc h)

-- Two passes that join their diagnostics have none between them only if neither has any.
join-eq-nil :
    {A : Type 0} (m n : Option (List A))
    → (m >>= λ ds. n >>= λ es. some (ds ++ es)) ≡ some []
    → (m ≡ some []) × (n ≡ some [])
join-eq-nil none n h = absurd (cc h)
join-eq-nil (some ds) none h = absurd (cc h)
join-eq-nil (some ds) (some es) h = let (a, b) = append-eq-nil ds es (cc) in (ap some a, ap some b)

join_found :
    {A B : Type 0} (m : Option (A × List B)) (n : Option (List A × List B)) {as' : List A}
    → (m >>= λ r. ◌>>=◌ {B = List A × List B} n λ r'. some (r.0 ∷ r'.0, r.1 ++ r'.1))
      ≡ some (as', [])
    → (a : A) × (bs : List A) × (m ≡ some (a, [])) × (n ≡ some (bs, [])) × (as' ≡ a ∷ bs)
join_found none n h = absurd (cc h)
join_found (some r) none h = absurd (cc h)
join_found (some (a, ds)) (some (bs, es)) h =
    let (p, q) = append-eq-nil ds es cc in (a, bs, rw p, rw q, cc)

pub some-eq : {A : Type 0} {a b : A} → some a ≡ some b → a ≡ b
some-eq h = cc

module _ (debug : Expr → Text) where
  -- The measure that `f` is checked by: the forms of the tuple that it writes, over its parameters
  -- alone, or one of its parameters.
  pub data IsMeasure (f : FunDecl) (m : Measure) : Type 0 where
    written :
        (e : Expr)
        → f.measure ≡ some e
        → forms debug (components e) ≡ some m
        → all (λ l. atoms_in (param_names f) l.terms) m ≡ true
        → IsMeasure f m
    inferred :
        (name : Text)
        → f.measure ≡ none
        → m ≡ lin_var name ∷ []
        → In name (param_names f)
        → IsMeasure f m

  -- Without diagnostics each part of a pass has none.
  pass1_cons :
      (p : Program) (f : FunDecl) (fs : List FunDecl) (k : ℕ) {ms : List (Option Measure)}
      → pass1 debug p k (f ∷ fs) ≡ some (ms, [])
      → (m : Option Measure) × (ms' : List (Option Measure)) × (find_pass debug p k f
          ≡ some (m, []))
        × (pass1 debug p (suc k) fs ≡ some (ms', []))
        × (ms ≡ m ∷ ms')
  unfolding pass1
  pass1_cons p f fs k h = join_found (find_pass debug p k f) (pass1 debug p (suc k) fs) h

  pub pass1_at :
      (p : Program) (fs : List FunDecl) (k i n : ℕ) {f : FunDecl} {ms : List (Option Measure)}
      → k + i ≡ n
      → pass1 debug p k fs ≡ some (ms, [])
      → get_elem? fs i ≡ some f
      → find_pass debug p n f ≡ some (get_or ms i none, [])
  unfolding pass1
  pass1_at p [] k i n e h g = absurd (cc g)
  pass1_at p (f ∷ fs) k zero n {f = f'} e h g =
      let (m, ms', now, later, same) = pass1_cons p f fs k h in
      let head : f ≡ f' = cc in let index : k ≡ n = omega arith in rw (same, ← index, ← head) now
  pass1_at p (f ∷ fs) k (suc i) n e h g =
      let (m, ms', now, later, same) = pass1_cons p f fs k h in
      rw same (pass1_at p fs (suc k) i n (omega arith) later g)

  check_call_lem :
      (p : Program) (ms : List (Option Measure)) (i : ℕ) (f : FunDecl) (mi mj : Measure) (c : Call)
      → check_call debug p ms i f mi c ≡ some []
      → same_group p i c.callee ≡ true
      → get_or ms c.callee none ≡ some mj
      → lex_decreases debug mi mj (params_at p c.callee) c.args ≡ some true
  unfolding check_call
  check_call_lem p ms i f mi mj c h s m = ground arith

  check_calls_at :
      (p : Program) (ms : List (Option Measure)) (i : ℕ) (f : FunDecl) (mi : Measure)
      (cs : List Call) (c : Call)
      → check_calls debug p ms i f mi cs ≡ some []
      → In c cs
      → check_call debug p ms i f mi c ≡ some []
  unfolding check_calls
  check_calls_at p ms i f mi [] c h m = elim m [ ]
  check_calls_at p ms i f mi (c ∷ cs) d h m =
      let (now, later) =
        join-eq-nil (check_call debug p ms i f mi c) (check_calls debug p ms i f mi cs) h in
      elim (In-cons m) [
        | inl same ↦ subst (λ x. check_call debug p ms i f mi x ≡ some []) (sym same) now
        | inr n ↦ check_calls_at p ms i f mi cs d later n
      ]

  pub pass2_at :
      (p : Program) (ms : List (Option Measure)) (fs : List FunDecl) (k i n : ℕ) {f : FunDecl}
      → k + i ≡ n
      → pass2 debug p ms k fs ≡ some []
      → get_elem? fs i ≡ some f
      → calls_of debug p ms n f (get_or ms n none) ≡ some []
  unfolding pass2
  pass2_at p ms [] k i n e h g = absurd (cc g)
  pass2_at p ms (f ∷ fs) k zero n {f = f'} e h g =
      let head : f ≡ f' = cc in
      let index : k ≡ n = omega arith in
      rw (← index, ← head) (join-eq-nil (calls_of debug p ms k f (get_or ms k none)) _ h).0
  pass2_at p ms (f ∷ fs) k (suc i) n e h g =
      pass2_at p ms fs (suc k) i n (omega arith)
        (join-eq-nil (calls_of debug p ms k f (get_or ms k none)) _ h).1 g

  find_measure-In :
      (params names : List Text) (i : ℕ) (cs : List Call) {name : Text}
      → find_measure debug params names i cs ≡ some (some name)
      → In name names
  unfolding find_measure
  find_measure-In params [] i cs h = absurd (cc h)
  find_measure-In params (n ∷ names) i cs h =
      let (d, kd, g) =
        >>=-eq-some (drops_at debug params n i cs)
          (λ d. if d then some (some n) else find_measure debug params names i cs) h in
      elim (Bool-cases d) [
        | inl y ↦
            let same : some (some n) ≡ some (some _) = rw y at g in
            rw (← some-eq (some-eq same)) here
        | inr no' ↦ there (find_measure-In params names i cs (rw no' at g))
      ]

  accept_measure-eq :
      (f : FunDecl) (params : List Text) (e : Expr) (parts : Measure) {m : Option Measure}
      → accept_measure f params e parts ≡ (m, [])
      → (m ≡ some parts) × (all (λ l. atoms_in params l.terms) parts ≡ true)
  unfolding accept_measure
  accept_measure-eq f params e parts h = ground arith

  accept_name-eq :
      (f : FunDecl) (o : Option Text) {m : Option Measure}
      → accept_name f o ≡ (m, [])
      → (name : Text) × (o ≡ some name) × (m ≡ some (lin_var name ∷ []))
  unfolding accept_name
  accept_name-eq f none h = absurd (cc h)
  accept_name-eq f (some name) h = (name, refl, cc)

  measure_from-IsMeasure :
      (p : Program) (i : ℕ) (f : FunDecl) (o : Option Expr) {m : Option Measure}
      → params_at p i ≡ param_names f
      → f.measure ≡ o
      → measure_from debug p i f o ≡ some (m, [])
      → (mi : Measure) × (m ≡ some mi) × IsMeasure f mi
  unfolding measure_from
  measure_from-IsMeasure p i f none e g h =
      elim (Bool-cases (all (λ c. c.callee == i || not (same_group p i c.callee)) (calls_at p i))) [
        | inl solo ↦
            let (o, ko, x) =
              >>=-eq-some (find_measure debug (params_at p i) (params_at p i) i (calls_at p i))
                (λ name. some (accept_name f name)) (rw solo at h) in
            let (name, found, same) = accept_name-eq f o (some-eq x) in
            (
              lin_var name ∷ [],
              same,
              inferred name g refl (
                  rw e at (
                    find_measure-In (params_at p i) (params_at p i) i (calls_at p i)
                      (ko ∙ ap some found))),
            )
        | inr group ↦
            let (name, absent, _) = accept_name-eq f none (some-eq (rw group at h)) in
            absurd (cc absent)
      ]
  measure_from-IsMeasure p i f (some x) e g h =
      let (parts, kp, y) =
        >>=-eq-some (forms debug (components x))
          (λ parts. some (accept_measure f (params_at p i) x parts)) h in
      let (same, atoms) = accept_measure-eq f (params_at p i) x parts (some-eq y) in
      (parts, same, written x g kp (rw e at atoms))

  pub find_pass-IsMeasure :
      (p : Program) (i : ℕ) (f : FunDecl) {m : Option Measure}
      → params_at p i ≡ param_names f
      → recursive p i ≡ true
      → diverges f ≡ false
      → find_pass debug p i f ≡ some (m, [])
      → (mi : Measure) × (m ≡ some mi) × IsMeasure f mi
  unfolding find_pass
  find_pass-IsMeasure p i f e r d h = measure_from-IsMeasure p i f f.measure e refl (rw (r, d) at h)

  -- What pass 2 has checked at a call from `f` to `g` inside a group.
  pub pass2_call :
      (p : Program) (ms : List (Option Measure)) (i j : ℕ) (f : FunDecl) (mi mj : Measure)
      (c : Call)
      → calls_of debug p ms i f (get_or ms i none) ≡ some []
      → get_or ms i none ≡ some mi
      → get_or ms j none ≡ some mj
      → In c (calls_at p i)
      → c.callee ≡ j
      → same_group p i j ≡ true
      → lex_decreases debug mi mj (params_at p j) c.args ≡ some true
  pass2_call p ms i j f mi mj c h ei ej m to s =
      let checked = check_calls_at p ms i f mi (calls_at p i) c (rw ei at h) m in
      rw to at (check_call_lem p ms i f mi mj c checked (rw to s) (rw to ej))
