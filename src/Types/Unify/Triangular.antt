-- ===== src/Types/Unify/Triangular.antt =====
-- src/types.rs: what holds of `subst` between the calls of `unify`. Every variable has a rank that
-- its binding lowers, so `resolve` reaches a type without bound variables.
use vibelang.Base.{
  ℕ, zero, suc, ◌≤◌, ◌<◌, true, false, Option, none, some, List, [], ◌∷◌, ◌≡◌, refl, sym, ap, ◌∙◌,
  arith, ◌==◌, Option-cases, inl, inr, length, set,
}
use vibelang.Types.{T}
use vibelang.Types.Unify.{replace, mentions, bound, follow, resolve}
use vibelang.Types.Unify.Substitute.{replace_agree, replace-var, mentions-replace}

-- How many variables are bound.
unfoldable pub bound_count : List (Option T) → ℕ
bound_count [] = 0
bound_count (none ∷ s) = bound_count s
bound_count (some t ∷ s) = suc (bound_count s)

-- Every variable of the type has an entry.
abbrev pub InScope : List (Option T) → T → Type 0
InScope s t = (w : ℕ) → mentions w t ≡ true → w < length s

-- No variable of the type is bound.
abbrev pub Resolved : List (Option T) → T → Type 0
Resolved s t = (w : ℕ) → mentions w t ≡ true → bound s w ≡ none

pub record IsTriangular (s : List (Option T)) : Type 0 where
  pub rank : ℕ → ℕ
  pub up : (v : ℕ) {u : T} → bound s v ≡ some u → 0 < rank v
  pub down : (v w : ℕ) {u : T} → bound s v ≡ some u → mentions w u ≡ true → rank w < rank v
  pub low : (v : ℕ) → rank v ≤ bound_count s
  pub scope : (v : ℕ) {u : T} → bound s v ≡ some u → InScope s u

pub bound_count-le-length : (s : List (Option T)) → bound_count s ≤ length s
unfolding bound_count
bound_count-le-length [] = omega arith
bound_count-le-length (none ∷ s) = omega (arith, bound_count-le-length s)
bound_count-le-length (some t ∷ s) = omega (arith, bound_count-le-length s)

pub bound_count-set :
    (s : List (Option T)) (v : ℕ) (t : T)
    → v < length s
    → bound s v ≡ none
    → bound_count (set s v (some t)) ≡ suc (bound_count s)
unfolding bound_count bound
bound_count-set [] v t lt b = absurd (omega arith)
bound_count-set (none ∷ s) zero t lt b = refl
bound_count-set (some u ∷ s) zero t lt b = absurd (cc b)
bound_count-set (none ∷ s) (suc v) t lt b = bound_count-set s v t (omega arith) b
bound_count-set (some u ∷ s) (suc v) t lt b = ap suc (bound_count-set s v t (omega arith) b)

pub bound-set :
    (s : List (Option T)) (v : ℕ) (t : T) → v < length s → bound (set s v (some t)) v ≡ some t
unfolding bound
bound-set [] v t lt = absurd (omega arith)
bound-set (o ∷ s) zero t lt = refl
bound-set (o ∷ s) (suc v) t lt = bound-set s v t (omega arith)

pub bound-set_other :
    (s : List (Option T)) (v w : ℕ) (t : T)
    → (w == v) ≡ false
    → bound (set s v (some t)) w ≡ bound s w
unfolding bound
bound-set_other [] v w t ne = refl
bound-set_other (o ∷ s) zero zero t ne = absurd (cc ne)
bound-set_other (o ∷ s) zero (suc w) t ne = refl
bound-set_other (o ∷ s) (suc v) zero t ne = refl
bound-set_other (o ∷ s) (suc v) (suc w) t ne = bound-set_other s v w t (ground arith)

module _ (s : List (Option T)) (tri : IsTriangular s) where
  pub follow_unbound : (n i : ℕ) → bound s i ≡ none → follow s n i ≡ T.var i
  unfolding follow
  follow_unbound zero i b = refl
  follow_unbound (suc n) i b = rw (follow, b)

  pub follow-bound :
      (n i : ℕ) {u : T} → bound s i ≡ some u → follow s (suc n) i ≡ replace (follow s n) u
  unfolding follow
  follow-bound n i b = rw (follow, b)

  pub rank_zero : (i : ℕ) → tri.rank i ≤ 0 → bound s i ≡ none
  rank_zero i le = elim (Option-cases (bound s i)) [
    | inl b ↦ b
    | inr (u, b) ↦ absurd (omega (arith, tri.up i b))
  ]

  -- More steps than the rank change nothing.
  follow_enough : (n m i : ℕ) → tri.rank i ≤ n → tri.rank i ≤ m → follow s n i ≡ follow s m i
  unfolding follow
  follow_enough zero m i ln lm = sym (follow_unbound m i (rank_zero i ln))
  follow_enough (suc n) zero i ln lm = follow_unbound (suc n) i (rank_zero i lm)
  follow_enough (suc n) (suc m) i ln lm = elim (Option-cases (bound s i)) [
    | inl b ↦ follow_unbound (suc n) i b ∙ sym (follow_unbound (suc m) i b)
    | inr (u, b) ↦
        follow-bound n i b
        ∙ replace_agree (follow s n) (follow s m) u (λ w k.
          follow_enough n m w (omega (arith, tri.down i w b k)) (omega (arith, tri.down i w b k)))
        ∙ sym (follow-bound m i b)
  ]

  unbound_here :
      (n i w : ℕ) → bound s i ≡ none → mentions w (follow s n i) ≡ true → bound s w ≡ none
  unfolding mentions
  unbound_here n i w b m =
      let k : mentions w (T.var i) ≡ true = rw (follow_unbound n i b) at m in
      let same : i ≡ w = ground (arith, k) in rw (← same) b

  -- Nothing that is bound is left.
  follow-Resolved : (n i : ℕ) → tri.rank i ≤ n → Resolved s (follow s n i)
  follow-Resolved zero i le w m = unbound_here zero i w (rank_zero i le) m
  follow-Resolved (suc n) i le w m = elim (Option-cases (bound s i)) [
    | inl b ↦ unbound_here (suc n) i w b m
    | inr (u, b) ↦
        let (j, inside, k) = mentions-replace (follow s n) w u (rw (follow-bound n i b) at m) in
        follow-Resolved n j (omega (arith, tri.down i j b inside)) w k
  ]

  pub rank-le-length : (i : ℕ) → tri.rank i ≤ length s
  rank-le-length i = omega (arith, tri.low i, bound_count-le-length s)

  -- Under a well-formed substitution `resolve` follows the source's recursion: at a variable that is
  -- bound it resolves what the variable is bound to.
  pub resolve-bound : (i : ℕ) {u : T} → bound s i ≡ some u → resolve s (T.var i) ≡ resolve s u
  unfolding resolve replace
  resolve-bound i {u} b =
      follow_enough (length s) (suc (length s)) i (rank-le-length i)
        (omega (arith, rank-le-length i))
      ∙ follow-bound (length s) i b

  pub resolve-unbound : (i : ℕ) → bound s i ≡ none → resolve s (T.var i) ≡ T.var i
  unfolding resolve replace
  resolve-unbound i b = follow_unbound (length s) i b

  pub resolve-Resolved : (t : T) → Resolved s (resolve s t)
  unfolding resolve
  resolve-Resolved t w m =
      let (i, inside, k) = mentions-replace (follow s (length s)) w t m in
      follow-Resolved (length s) i (rank-le-length i) w k

  -- A type without bound variables resolves to itself.
  pub resolve_id : (t : T) → Resolved s t → resolve s t ≡ t
  unfolding resolve
  resolve_id t r =
      replace_agree (follow s (length s)) T.var t (λ i m. follow_unbound (length s) i (r i m))
      ∙ replace-var t

  -- Under a well-formed substitution, resolving twice is resolving once.
  pub resolve-resolve : (t : T) → resolve s (resolve s t) ≡ resolve s t
  resolve-resolve t = resolve_id (resolve s t) (resolve-Resolved t)

  follow-InScope : (n i : ℕ) → i < length s → InScope s (follow s n i)
  unfolding follow mentions
  follow-InScope zero i lt w m = ground (arith, m)
  follow-InScope (suc n) i lt w m = elim (Option-cases (bound s i)) [
    | inl b ↦
        let k : mentions w (T.var i) ≡ true = rw (follow_unbound (suc n) i b) at m in
        ground (arith, k)
    | inr (u, b) ↦
        let (j, inside, k) = mentions-replace (follow s n) w u (rw (follow-bound n i b) at m) in
        follow-InScope n j (tri.scope i b j inside) w k
  ]

  pub resolve-InScope : (t : T) → InScope s t → InScope s (resolve s t)
  unfolding resolve
  resolve-InScope t h w m =
      let (i, inside, k) = mentions-replace (follow s (length s)) w t m in
      follow-InScope (length s) i (h i inside) w k
