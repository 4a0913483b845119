-- ===== src/Types/Scheme/Examples.antt =====
-- src/types.rs, `generalise` on `t0 -> t1 -> t0` with nothing bound.
use vibelang.Base.{ℕ, zero, suc, true, Option, none, List, [], ◌∷◌, ◌≡◌, refl, arith}
use vibelang.Types.{T}
use vibelang.Types.Unify.{bound, mentions}
use vibelang.Types.Unify.Triangular.{IsTriangular}
use vibelang.Types.Scheme.{listed, each_once, generalise, generalise_vars, bound-generalise}

abbrev fresh_pair : List (Option T)
fresh_pair = none ∷ none ∷ []

abbrev constant_fun : T
constant_fun = T.fun (T.var 0) (T.fun (T.var 1) (T.var 0))

two_variables : (generalise fresh_pair constant_fun).vars ≡ 0 ∷ 1 ∷ []
unfolding generalise
two_variables = refl

fresh_pair-free : (v : ℕ) → bound fresh_pair v ≡ none
unfolding bound
fresh_pair-free zero = refl
fresh_pair-free (suc zero) = refl
fresh_pair-free (suc (suc v)) = refl

fresh_pair-IsTriangular : IsTriangular fresh_pair
fresh_pair-IsTriangular = record {
  rank = λ v. 0;
  up = λ v b. absurd (cc (b, fresh_pair-free v));
  down = λ v w b m. absurd (cc (b, fresh_pair-free v));
  low = λ v. omega arith;
  scope = λ v b. absurd (cc (b, fresh_pair-free v));
}

generalise_vars_example :
    ((v : ℕ)
      → listed (generalise fresh_pair constant_fun).vars v
        ≡ mentions v (generalise fresh_pair constant_fun).ty)
    × (each_once (generalise fresh_pair constant_fun).vars ≡ true)
generalise_vars_example = generalise_vars fresh_pair constant_fun

one_listed : listed (generalise fresh_pair constant_fun).vars 1 ≡ true
unfolding generalise listed
one_listed = refl

bound-generalise_example : bound fresh_pair 1 ≡ none
bound-generalise_example =
    bound-generalise fresh_pair constant_fun 1 fresh_pair-IsTriangular one_listed
