-- ===== src/Types/Unify.antt =====
-- src/types.rs, `Kind`, `Checker::fresh`, `resolve`, `occurs`, `unify`, `bind_var` and
-- `default_numerics`. Of the checker's state this is the part that unification reads and writes.
-- Every variable has an index below `subst.len()`.
pub mod Substitute
pub mod Triangular
pub mod Bind
pub mod Steps
pub mod Sound
pub mod Fuel
pub mod Ends
pub mod Occurs
mod Examples
use vibelang.Base.{
  ℕ, zero, suc, String, Bool, false, not, ◌&&◌, ◌||◌, Option, none, some, List, [], ◌∷◌, ◌++◌,
  codes, ◌==◌, length, get_or, set, contains, text_eq, if◌then◌else◌,
}
use vibelang.Diag.{Span, Diag, error}
use vibelang.Types.{T, Ts, constant, float_types, is_num}

pub data Kind : Type 0 where
  any num float : Kind

pub record Checker : Type 0 where
  pub subst : List (Option T)
  pub kinds : List Kind

-- `Checker::fresh`.
unfoldable pub fresh : Kind → Checker → T × Checker
fresh k c =
    (T.var (length c.subst), record c { subst = c.subst ++ none ∷ []; kinds = c.kinds ++ k ∷ [] })

-- A type with every variable replaced.
unfoldable mutual
  pub replace : (ℕ → T) → T → T
  replace σ (T.var i) = σ i
  replace σ (T.con n ts) = T.con n (replace_all σ ts)
  replace σ (T.fun a b) = T.fun (replace σ a) (replace σ b)
  replace σ (T.tuple ts) = T.tuple (replace_all σ ts)
  replace σ (T.eff t) = T.eff (replace σ t)

  pub replace_all : (ℕ → T) → Ts → Ts
  replace_all σ Ts.nil = Ts.nil
  replace_all σ (Ts.cons t ts) = Ts.cons (replace σ t) (replace_all σ ts)

-- What a variable is bound to.
unfoldable pub bound : List (Option T) → ℕ → Option T
bound s i = get_or s i none

-- `resolve` at a variable, following at most `n` bindings.
unfoldable pub follow : List (Option T) → ℕ → ℕ → T
unfolding bound replace
follow s zero i = T.var i
follow s (suc n) i = elim (bound s i) [ none ↦ T.var i | some u ↦ replace (follow s n) u ]

-- `resolve`. No chain of bindings is longer than the substitution.
unfoldable pub resolve : List (Option T) → T → T
unfolding replace follow
resolve s = replace (follow s (length s))

-- Whether a variable stands in a type.
unfoldable mutual
  pub mentions : ℕ → T → Bool
  mentions v (T.var i) = i == v
  mentions v (T.con n ts) = mentions_any v ts
  mentions v (T.fun a b) = mentions v a || mentions v b
  mentions v (T.tuple ts) = mentions_any v ts
  mentions v (T.eff t) = mentions v t

  pub mentions_any : ℕ → Ts → Bool
  mentions_any v Ts.nil = false
  mentions_any v (Ts.cons t ts) = mentions v t || mentions_any v ts

-- `occurs`: the source resolves again at every level, which changes nothing below a resolved type.
unfoldable pub occurs : List (Option T) → ℕ → T → Bool
unfolding resolve mentions
occurs s v t = mentions v (resolve s t)

-- What a call of `unify` comes to. The state is kept on an error, as `&mut self` is.
pub data Status : Type 0 where
  done : Status
  failed : Diag → Status
  out_of_fuel : Status

abbrev pub Run : Type 0
Run = Checker × Status

-- `?`, then the next call.
abbrev pub and_then : Run → (Checker → Run) → Run
and_then (c, done) k = k c
and_then (c, s) k = (c, s)

merge_kinds : Kind → Kind → Kind
merge_kinds float _ = float
merge_kinds _ float = float
merge_kinds num _ = num
merge_kinds _ num = num
merge_kinds _ _ = any

-- The kind check of `bind_var`: `none` if the type is refused, and the kinds after it.
unfoldable pub bind_kinds : Kind → T → List Kind → Option (List Kind)
unfolding merge_kinds is_num
bind_kinds num (T.con n _) kinds = if not (is_num n) then none else some kinds
bind_kinds float (T.con n _) kinds = if not (contains float_types n) then none else some kinds
bind_kinds k (T.var j) kinds = some (set kinds j (merge_kinds k (get_or kinds j any)))
bind_kinds _ _ kinds = some kinds

abbrev pub Unifier : Type 0
Unifier = Checker → T → T → Run

-- The loop over the paired arguments.
unfoldable pub unify_all : Unifier → Checker → Ts → Ts → Run
unify_all u c (Ts.cons x xs) (Ts.cons y ys) = and_then (u c x y) λ c'. unify_all u c' xs ys
unify_all u c _ _ = (c, done)

abbrev pub count : Ts → ℕ
count Ts.nil = 0
count (Ts.cons t ts) = suc (count ts)

module _ (span : Span) where
  abbrev fail : Checker → String → Run
  fail c code = (c, failed (error span (codes code)))

  abbrev pub bind_as : Checker → ℕ → T → Option (List Kind) → Run
  bind_as c v t none = (c, failed (error span (codes "type.mismatch")))
  bind_as c v t (some kinds) = (record { subst = set c.subst v (some t); kinds = kinds }, done)

  -- `bind_var`.
  unfoldable pub bind_var : Checker → ℕ → T → Run
  unfolding occurs bind_kinds
  bind_var c v t =
      if occurs c.subst v t
      then fail c "type.infinite"
      else bind_as c v t (bind_kinds (get_or c.kinds v any) t c.kinds)

  -- The match of `unify` on the two resolved types.
  unfoldable pub unify_resolved : Unifier → Checker → T → T → Run
  unfolding bind_var unify_all
  unify_resolved u c (T.var i) (T.var j) = if i == j then (c, done) else bind_var c i (T.var j)
  unify_resolved u c (T.var i) b = bind_var c i b
  unify_resolved u c a (T.var j) = bind_var c j a
  unify_resolved u c (T.con m xs) (T.con n ys) =
      if text_eq m n && count xs == count ys then unify_all u c xs ys else fail c "type.mismatch"
  unify_resolved u c (T.fun p r) (T.fun q s) = and_then (u c p q) λ c'. u c' r s
  unify_resolved u c (T.tuple xs) (T.tuple ys) =
      if count xs == count ys then unify_all u c xs ys else fail c "type.mismatch"
  unify_resolved u c (T.eff x) (T.eff y) = u c x y
  unify_resolved u c (T.eff x) b = fail c "effect.leak"
  unify_resolved u c a (T.eff y) = fail c "effect.missing"
  unify_resolved u c a b = fail c "type.mismatch"

  -- `unify`, with fuel for the depth of the recursion.
  unfoldable pub unify : ℕ → Unifier
  unfolding unify_resolved resolve
  unify zero c a b = (c, out_of_fuel)
  unify (suc n) c a b = unify_resolved (unify n) c (resolve c.subst a) (resolve c.subst b)

default_at : Option T → Kind → Option T
default_at (some t) k = some t
default_at none num = some (constant "I64")
default_at none float = some (constant "F64")
default_at none any = none

-- `default_numerics`, over the two vectors together.
unfoldable pub default_numerics : List (Option T) → List Kind → List (Option T)
unfolding default_at
default_numerics (t ∷ ts) (k ∷ ks) = default_at t k ∷ default_numerics ts ks
default_numerics ts _ = ts
