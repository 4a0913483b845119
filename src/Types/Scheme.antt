-- ===== src/Types/Scheme.antt =====
-- src/types.rs, `Scheme`, `collect_vars` and `generalise`.
mod Examples
use vibelang.Base.{
  ℕ, Bool, true, false, not, ◌&&◌, ◌||◌, Option, none, List, [], ◌∷◌, ◌++◌, any, ◌==◌,
  if◌then◌else◌, ◌≡◌, refl, sym, ap, ◌∙◌, arith, Bool-cases, inl, inr,
}
use vibelang.Types.{T, Ts}
use vibelang.Types.Unify.{bound, mentions, mentions_any, resolve}
use vibelang.Types.Unify.Triangular.{IsTriangular, resolve-Resolved}

pub record Scheme : Type 0 where
  pub vars : List ℕ
  pub ty : T

-- `out.contains(i)`.
unfoldable pub listed : List ℕ → ℕ → Bool
listed is i = any (λ j. j == i) is

unfoldable mutual
  unfolding listed

  pub collect_vars : T → List ℕ → List ℕ
  collect_vars (T.var i) out = if listed out i then out else out ++ i ∷ []
  collect_vars (T.con n ts) out = collect_vars_all ts out
  collect_vars (T.fun a b) out = collect_vars b (collect_vars a out)
  collect_vars (T.tuple ts) out = collect_vars_all ts out
  collect_vars (T.eff t) out = collect_vars t out

  pub collect_vars_all : Ts → List ℕ → List ℕ
  collect_vars_all Ts.nil out = out
  collect_vars_all (Ts.cons t ts) out = collect_vars_all ts (collect_vars t out)

-- `generalise`.
unfoldable pub generalise : List (Option T) → T → Scheme
unfolding collect_vars resolve
generalise s t = record { vars = collect_vars (resolve s t) []; ty = resolve s t }

-- No number is listed twice.
unfoldable pub each_once : List ℕ → Bool
unfolding listed
each_once [] = true
each_once (i ∷ is) = not (listed is i) && each_once is

listed-append : (is : List ℕ) (i v : ℕ) → listed (is ++ i ∷ []) v ≡ (listed is v || i == v)
unfolding listed
listed-append [] i v = ground arith
listed-append (j ∷ is) i v = ground (arith, listed-append is i v)

each_once-append :
    (is : List ℕ) (i : ℕ)
    → listed is i ≡ false
    → each_once is ≡ true
    → each_once (is ++ i ∷ []) ≡ true
unfolding each_once listed
each_once-append [] i h e = refl
each_once-append (j ∷ is) i h e = ground (arith, h, e, listed-append is i j, each_once-append is i)

mutual
  unfolding collect_vars mentions

  listed-collect_vars :
      (t : T) (out : List ℕ) (v : ℕ)
      → listed (collect_vars t out) v ≡ (listed out v || mentions v t)
  listed-collect_vars (T.var i) out v = elim (Bool-cases (listed out i)) [
    | inl old ↦ rw old (ground (arith, old))
    | inr new ↦ rw (new, listed-append out i v) refl
  ]
  listed-collect_vars (T.con n ts) out v = listed-collect_vars_all ts out v
  listed-collect_vars (T.fun a b) out v =
      ground (arith, listed-collect_vars b (collect_vars a out) v, listed-collect_vars a out v)
  listed-collect_vars (T.tuple ts) out v = listed-collect_vars_all ts out v
  listed-collect_vars (T.eff t) out v = listed-collect_vars t out v

  listed-collect_vars_all :
      (ts : Ts) (out : List ℕ) (v : ℕ)
      → listed (collect_vars_all ts out) v ≡ (listed out v || mentions_any v ts)
  listed-collect_vars_all Ts.nil out v = ground arith
  listed-collect_vars_all (Ts.cons t ts) out v =
      ground (arith, listed-collect_vars_all ts (collect_vars t out) v, listed-collect_vars t out v)

mutual
  unfolding collect_vars

  each_once-collect_vars :
      (t : T) (out : List ℕ) → each_once out ≡ true → each_once (collect_vars t out) ≡ true
  each_once-collect_vars (T.var i) out h = elim (Bool-cases (listed out i)) [
    | inl old ↦ rw old h
    | inr new ↦ rw new (each_once-append out i new h)
  ]
  each_once-collect_vars (T.con n ts) out h = each_once-collect_vars_all ts out h
  each_once-collect_vars (T.fun a b) out h =
      each_once-collect_vars b (collect_vars a out) (each_once-collect_vars a out h)
  each_once-collect_vars (T.tuple ts) out h = each_once-collect_vars_all ts out h
  each_once-collect_vars (T.eff t) out h = each_once-collect_vars t out h

  each_once-collect_vars_all :
      (ts : Ts) (out : List ℕ) → each_once out ≡ true → each_once (collect_vars_all ts out) ≡ true
  each_once-collect_vars_all Ts.nil out h = h
  each_once-collect_vars_all (Ts.cons t ts) out h =
      each_once-collect_vars_all ts (collect_vars t out) (each_once-collect_vars t out h)

-- A scheme that `generalise` makes lists a variable exactly if it stands in its type, and lists none
-- twice.
pub generalise_vars :
    (s : List (Option T)) (t : T)
    → ((v : ℕ) → listed (generalise s t).vars v ≡ mentions v (generalise s t).ty)
      × (each_once (generalise s t).vars ≡ true)
unfolding generalise each_once listed
generalise_vars s t =
    (λ v. listed-collect_vars (resolve s t) [] v, each_once-collect_vars (resolve s t) [] refl)

-- Under a well-formed substitution no variable that a scheme of `generalise` lists is bound.
pub bound-generalise :
    (s : List (Option T)) (t : T) (v : ℕ)
    → IsTriangular s
    → listed (generalise s t).vars v ≡ true
    → bound s v ≡ none
unfolding generalise listed
bound-generalise s t v tri h =
    resolve-Resolved s tri t v (sym (listed-collect_vars (resolve s t) [] v) ∙ h)
