-- ===== src/Types/Unify/Examples.antt =====
-- src/types.rs, `unify` on the types of a function of two unknowns.
use vibelang.Base.{
  ℕ, zero, suc, ◌+◌, ◌<◌, ◌≤◌, codes, contains, text_eq, true, false, Option, none, some, List, [],
  ◌∷◌, ◌≡◌, ◌↔◌, refl, arith,
}
use vibelang.Diag.{Span}
use vibelang.Types.{T, Ts, constant}
use vibelang.Types.Unify.{Checker, num, any, mentions, bound, resolve, occurs, done, unify}
use vibelang.Types.Unify.Triangular.{InScope, IsTriangular, bound_count, resolve-resolve}
use vibelang.Types.Unify.Bind.{Refines}
use vibelang.Types.Unify.Sound.{unify-Refines, resolve-unify}
use vibelang.Types.Unify.Fuel.{ran_out}
use vibelang.Types.Unify.Ends.{unify-Ends}
use vibelang.Types.Unify.Occurs.{Occurs, occurs_exact}

abbrev nowhere : Span
nowhere = record { file = 0; line = 1; col = 1; len = 1 }

abbrev unknowns : List (Option T)
unknowns = none ∷ none ∷ []

abbrev start : Checker
start = record { subst = unknowns; kinds = num ∷ any ∷ [] }

-- `t0 -> t1` and `t1 -> U64`.
abbrev left : T
left = T.fun (T.var 0) (T.var 1)

abbrev right : T
right = T.fun (T.var 1) (constant "U64")

left-right : (unify nowhere 3 start left right).1 ≡ done
unfolding unify contains text_eq
left-right = refl

left_after :
    resolve (unify nowhere 3 start left right).0.subst left
    ≡ T.fun (constant "U64") (constant "U64")
unfolding unify resolve contains text_eq
left_after = refl

unknowns-free : (v : ℕ) → bound unknowns v ≡ none
unfolding bound
unknowns-free zero = refl
unknowns-free (suc zero) = refl
unknowns-free (suc (suc v)) = refl

unknowns-IsTriangular : IsTriangular unknowns
unknowns-IsTriangular = record {
  rank = λ v. 0;
  up = λ v b. absurd (cc (b, unknowns-free v));
  down = λ v w b m. absurd (cc (b, unknowns-free v));
  low = λ v. omega arith;
  scope = λ v b. absurd (cc (b, unknowns-free v));
}

left-InScope : InScope unknowns left
unfolding mentions
left-InScope w m = ground (arith, m)

right-InScope : InScope unknowns right
unfolding mentions
right-InScope w m = ground (arith, m)

unify-Refines_example : Refines unknowns (unify nowhere 3 start left right).0.subst
unify-Refines_example =
    unify-Refines nowhere 3 start left right unknowns-IsTriangular left-InScope right-InScope

resolve-unify_example :
    resolve (unify nowhere 3 start left right).0.subst left
    ≡ resolve (unify nowhere 3 start left right).0.subst right
resolve-unify_example =
    resolve-unify nowhere 3 start left right unknowns-IsTriangular left-InScope right-InScope
      left-right

unify-Ends_example :
    (n : ℕ) × (ran_out (unify nowhere n start left right) ≡ false)
    × ((k : ℕ) → unify nowhere (n + k) start left right ≡ unify nowhere n start left right)
unify-Ends_example =
    unify-Ends nowhere start left right unknowns-IsTriangular left-InScope right-InScope

-- `t0` is bound to `Vec t1`.
abbrev vec_of : T
vec_of = T.con (codes "Vec") (Ts.cons (T.var 1) Ts.nil)

abbrev vec : List (Option T)
vec = some vec_of ∷ none ∷ []

vec-free : (v : ℕ) → bound vec (suc v) ≡ none
unfolding bound
vec-free zero = refl
vec-free (suc v) = refl

vec-bound : bound vec 0 ≡ some vec_of
unfolding bound
vec-bound = refl

vec_rank : ℕ → ℕ
vec_rank zero = 1
vec_rank (suc v) = 0

vec_part : (w : ℕ) {u : T} → bound vec 0 ≡ some u → mentions w u ≡ true → 1 ≡ w
unfolding mentions
vec_part w {u} b m =
    let same : u ≡ vec_of = cc (b, vec-bound) in
    let e : mentions w vec_of ≡ true = rw same at m in ground (arith, e)

vec_up : (v : ℕ) {u : T} → bound vec v ≡ some u → 0 < vec_rank v
unfolding vec_rank
vec_up zero b = omega arith
vec_up (suc v) b = absurd (cc (b, vec-free v))

vec_down : (v w : ℕ) {u : T} → bound vec v ≡ some u → mentions w u ≡ true → vec_rank w < vec_rank v
unfolding vec_rank
vec_down zero zero b m = absurd (omega (arith, vec_part 0 b m))
vec_down zero (suc w) b m = omega arith
vec_down (suc v) w b m = absurd (cc (b, vec-free v))

vec_low : (v : ℕ) → vec_rank v ≤ bound_count vec
unfolding vec_rank bound_count
vec_low zero = omega arith
vec_low (suc v) = omega arith

vec_scope : (v : ℕ) {u : T} → bound vec v ≡ some u → InScope vec u
vec_scope zero b w m = omega (arith, vec_part w b m)
vec_scope (suc v) b w m = absurd (cc (b, vec-free v))

vec-IsTriangular : IsTriangular vec
vec-IsTriangular = record {
  rank = vec_rank;
  up = vec_up;
  down = vec_down;
  low = vec_low;
  scope = vec_scope;
}

-- Through the binding of `t0`, `t1` occurs in `t0 -> t1` twice, and `t0` itself is bound.
occurs_exact_example : (occurs vec 1 left ≡ true) ↔ Occurs vec 1 left
occurs_exact_example = occurs_exact vec vec-IsTriangular 1 left

one_in_zero : occurs vec 1 (T.var 0) ≡ true
unfolding occurs
one_in_zero = refl

zero_in_zero : occurs vec 0 (T.var 0) ≡ false
unfolding occurs
zero_in_zero = refl

resolve-resolve_example : resolve vec (resolve vec left) ≡ resolve vec left
resolve-resolve_example = resolve-resolve vec vec-IsTriangular left
