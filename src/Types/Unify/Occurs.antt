-- ===== src/Types/Unify/Occurs.antt =====
-- src/types.rs, `occurs`: when a variable occurs in a type under the bindings of a substitution.
use vibelang.Base.{
  ℕ, zero, suc, ◌≤◌, Bool, true, false, ◌||◌, Option, none, some, List, ◌≡◌, ◌↔◌, refl, ap, ◌∙◌,
  arith, Option-cases, inl, inr, length,
}
use vibelang.Types.{T, Ts}
use vibelang.Types.Unify.{mentions, mentions_any, replace, bound, follow, resolve, occurs}
use vibelang.Types.Unify.Substitute.{mentions-replace, or_cases}
use vibelang.Types.Unify.Triangular.{
  IsTriangular, follow_unbound, follow-bound, rank_zero, rank-le-length, resolve-bound,
  resolve-unbound,
}

pub data Among (t : T) : Ts → Type 0 where
  first : {ts : Ts} → Among t (Ts.cons t ts)
  later : {u : T} {ts : Ts} → Among t ts → Among t (Ts.cons u ts)

-- The types that a type is built from.
pub data Part (t : T) : T → Type 0 where
  of_con : {n : List ℕ} {ts : Ts} → Among t ts → Part t (T.con n ts)
  of_tuple : {ts : Ts} → Among t ts → Part t (T.tuple ts)
  of_parameter : {r : T} → Part t (T.fun t r)
  of_result : {p : T} → Part t (T.fun p t)
  of_eff : Part t (T.eff t)

-- An unbound variable occurs in itself, in a variable bound to a type that it occurs in, and in a
-- type that it occurs in a part of.
pub data Occurs (s : List (Option T)) (v : ℕ) : T → Type 0 where
  itself : bound s v ≡ none → Occurs s v (T.var v)
  by_binding : {i : ℕ} {u : T} → bound s i ≡ some u → Occurs s v u → Occurs s v (T.var i)
  in_part : {t u : T} → Part u t → Occurs s v u → Occurs s v t

module _ (s : List (Option T)) (v : ℕ) where
  mutual
    unfolding mentions

    Occurs-mentions : (i : ℕ) (t : T) → mentions i t ≡ true → Occurs s v (T.var i) → Occurs s v t
    Occurs-mentions i (T.var j) m o = let same : j ≡ i = ground (arith, m) in rw same o
    Occurs-mentions i (T.con n ts) m o =
        let (u, a, k) = Among-mentions_any i ts m o in Occurs.in_part (Part.of_con a) k
    Occurs-mentions i (T.fun p r) m o = elim (or_cases (mentions i p) (mentions i r) m) [
      | inl l ↦ Occurs.in_part Part.of_parameter (Occurs-mentions i p l o)
      | inr l ↦ Occurs.in_part Part.of_result (Occurs-mentions i r l o)
    ]
    Occurs-mentions i (T.tuple ts) m o =
        let (u, a, k) = Among-mentions_any i ts m o in Occurs.in_part (Part.of_tuple a) k
    Occurs-mentions i (T.eff t) m o = Occurs.in_part Part.of_eff (Occurs-mentions i t m o)

    Among-mentions_any :
        (i : ℕ) (ts : Ts)
        → mentions_any i ts ≡ true
        → Occurs s v (T.var i)
        → (u : T) × Among u ts × Occurs s v u
    Among-mentions_any i Ts.nil m o = absurd (cc m)
    Among-mentions_any i (Ts.cons t ts) m o = elim (or_cases (mentions i t) (mentions_any i ts) m) [
      | inl l ↦ (t, Among.first, Occurs-mentions i t l o)
      | inr l ↦ let (u, a, k) = Among-mentions_any i ts l o in (u, Among.later a, k)
    ]

or_right : (a b : Bool) → b ≡ true → (a || b) ≡ true
or_right true b h = refl
or_right false b h = h

or_left : (a b : Bool) → a ≡ true → (a || b) ≡ true
or_left a b h = rw h refl

module _ (s : List (Option T)) (tri : IsTriangular s) (v : ℕ) where
  unbound_Occurs :
      (n i : ℕ) → bound s i ≡ none → mentions v (follow s n i) ≡ true → Occurs s v (T.var i)
  unfolding mentions
  unbound_Occurs n i b m =
      let k : mentions v (T.var i) ≡ true = rw (follow_unbound s tri n i b) at m in
      let same : i ≡ v = ground (arith, k) in rw same (Occurs.itself (rw same at b))

  follow-Occurs :
      (n i : ℕ) → tri.rank i ≤ n → mentions v (follow s n i) ≡ true → Occurs s v (T.var i)
  follow-Occurs zero i le m = unbound_Occurs zero i (rank_zero s tri i le) m
  follow-Occurs (suc n) i le m = elim (Option-cases (bound s i)) [
    | inl b ↦ unbound_Occurs (suc n) i b m
    | inr (u, b) ↦
        let (j, inside, k) =
          mentions-replace (follow s n) v u (rw (follow-bound s tri n i b) at m) in
        Occurs.by_binding b (
          Occurs-mentions s v j u inside
            (follow-Occurs n j (omega (arith, tri.down i j b inside)) k))
  ]

  occurs_sound : (t : T) → occurs s v t ≡ true → Occurs s v t
  unfolding occurs resolve
  occurs_sound t m =
      let (i, inside, k) = mentions-replace (follow s (length s)) v t m in
      Occurs-mentions s v i t inside (follow-Occurs (length s) i (rank-le-length s tri i) k)

  occurs_any : {t : T} {ts : Ts} → Among t ts → occurs s v t ≡ true → occurs s v (T.tuple ts) ≡ true
  unfolding occurs resolve mentions replace
  occurs_any Among.first h = or_left _ _ h
  occurs_any (Among.later a) h = or_right _ _ (occurs_any a h)

  occurs-Part : {t u : T} → Part u t → occurs s v u ≡ true → occurs s v t ≡ true
  unfolding occurs resolve mentions replace occurs_any
  occurs-Part (Part.of_con a) h = occurs_any a h
  occurs-Part (Part.of_tuple a) h = occurs_any a h
  occurs-Part Part.of_parameter h = or_left _ _ h
  occurs-Part Part.of_result h = or_right _ _ h
  occurs-Part Part.of_eff h = h

  occurs_complete : (t : T) → Occurs s v t → occurs s v t ≡ true
  unfolding occurs mentions
  occurs_complete t (Occurs.itself b) = ap (mentions v) (resolve-unbound s tri v b) ∙ ground arith
  occurs_complete t (Occurs.by_binding {i} {u} b o) =
      ap (mentions v) (resolve-bound s tri i b) ∙ occurs_complete u o
  occurs_complete t (Occurs.in_part {u = u} p o) = occurs-Part p (occurs_complete u o)

  -- Under a well-formed substitution, `occurs` finds a variable in a type just when the variable is
  -- unbound and, going down the type and through the bindings of its variables, is reached.
  pub occurs_exact : (t : T) → (occurs s v t ≡ true) ↔ Occurs s v t
  occurs_exact t = (occurs_sound t, occurs_complete t)
