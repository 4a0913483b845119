-- ===== src/Types/Unify/Bind.antt =====
-- src/types.rs, `bind_var`: binding a variable keeps the substitution well formed, and only adds to
-- what it says.
use vibelang.Base.{
  ℕ, zero, suc, ◌≤◌, ◌<◌, Bool, true, false, Option, none, some, List, ◌≡◌, ◌≢◌, refl, sym, ap, ◌∙◌,
  arith, ◌==◌, Bool-cases, Option-cases, ◌⊎◌, inl, inr, length, length-set, set, if◌then◌else◌,
}
use vibelang.Diag.{Span}
use vibelang.Types.{T}
use vibelang.Types.Unify.{
  Kind, Checker, replace, mentions, bound, follow, resolve, occurs, Status, done, bind_as, bind_var,
}
use vibelang.Types.Unify.Substitute.{replace_agree, replace-replace}
use vibelang.Types.Unify.Triangular.{
  bound_count, bound_count-set, InScope, Resolved, IsTriangular, bound-set, bound-set_other,
  follow_unbound, follow-bound, rank-le-length, resolve-bound, resolve_id, resolve-resolve,
}

-- Whatever one substitution resolves, the other resolves further.
abbrev pub Extends : List (Option T) → List (Option T) → Type 0
Extends s s' = (t : T) → resolve s' (resolve s t) ≡ resolve s' t

abbrev rank_at : ℕ → Bool → Option T → ℕ
rank_at r same none = if same then 1 else 0
rank_at r same (some u) = suc r

-- A substitution and what a free variable of it is bound to.
pub record CanBind (s : List (Option T)) (v : ℕ) (t : T) : Type 0 where
  pub triangular : IsTriangular s
  pub room : v < length s
  pub free : bound s v ≡ none
  pub resolved : Resolved s t
  pub scope : InScope s t
  pub apart : mentions v t ≡ false

module _ (s : List (Option T)) (v : ℕ) (t : T) (can : CanBind s v t) where
  abbrev after : List (Option T)
  after = set s v (some t)

  abbrev new_rank : ℕ → ℕ
  new_rank w = rank_at (can.triangular.rank w) (w == v) (bound s w)

  at_self : (w : ℕ) → (w == v) ≡ true → w ≡ v
  at_self w h = ground arith

  bound-after :
      (x : ℕ) {u : T} → bound after x ≡ some u → ((x ≡ v) × (u ≡ t)) ⊎ (bound s x ≡ some u)
  bound-after x {u} b = elim (Bool-cases (x == v)) [
    | inl same ↦
        let e : x ≡ v = at_self x same in
        let k : bound after v ≡ some u = rw e at b in inl (e, cc (bound-set s v t can.room, k))
    | inr other ↦ inr (sym (bound-set_other s v x t other) ∙ b)
  ]

  rank_of_bound : (x : ℕ) {u : T} → bound s x ≡ some u → new_rank x ≡ suc (can.triangular.rank x)
  rank_of_bound x b = rw b

  rank_of_self : new_rank v ≡ 1
  rank_of_self = rw can.free (ground arith)

  rank_of_free : (x : ℕ) → bound s x ≡ none → (x == v) ≡ false → new_rank x ≡ 0
  rank_of_free x b ne = rw (b, ne)

  -- A variable of `t` is not `v`.
  not_self : (w : ℕ) → mentions w t ≡ true → (w == v) ≡ false
  not_self w m = elim (Bool-cases (w == v)) [
    | inl same ↦
        let k : mentions v t ≡ true = rw (at_self w same) at m in absurd (cc (k, can.apart))
    | inr other ↦ other
  ]

  new_rank-below :
      (x w : ℕ) {u : T}
      → bound s x ≡ some u
      → mentions w u ≡ true
      → new_rank w ≤ can.triangular.rank x
  new_rank-below x w b m = elim (Option-cases (bound s w)) [
    | inl free ↦ elim (Bool-cases (w == v)) [
      | inl same ↦ rw (free, same) (can.triangular.up x b)
      | inr other ↦ rw (free, other) (omega arith)
    ]
    | inr (k, old) ↦ rw old (can.triangular.down x w b m)
  ]

  new_rank_self : (w : ℕ) → mentions w t ≡ true → new_rank w ≡ 0
  new_rank_self w m = rank_of_free w (can.resolved w m) (not_self w m)

  new_rank-low : (x : ℕ) → new_rank x ≤ bound_count after
  new_rank-low x = rw (bound_count-set s v t can.room can.free) (elim (Option-cases (bound s x)) [
    | inl free ↦ rw free (ground arith)
    | inr (u, old) ↦ rw old (omega (arith, can.triangular.low x))
  ])

  pub after-IsTriangular : IsTriangular after
  after-IsTriangular = record {
    rank = new_rank;
    up = λ x b. elim (bound-after x b) [
      | inl (same, e) ↦ rw (same, rank_of_self) (omega arith)
      | inr old ↦ rw (rank_of_bound x old) (omega arith)
    ];
    down = λ x w b m. elim (bound-after x b) [
      | inl (same, e) ↦ rw (same, rank_of_self, new_rank_self w (rw e at m)) (omega arith)
      | inr old ↦ rw (rank_of_bound x old) (omega (arith, new_rank-below x w old m))
    ];
    low = new_rank-low;
    scope = λ x b w m. elim (bound-after x b) [
      | inl (same, e) ↦ rw (length-set s v (some t)) (can.scope w (rw e at m))
      | inr old ↦ rw (length-set s v (some t)) (can.triangular.scope x old w m)
    ];
  }

  t_Resolved : Resolved after t
  t_Resolved w m = bound-set_other s v w t (not_self w m) ∙ can.resolved w m

  -- Afterwards the variable resolves to the type.
  pub resolve_self : resolve after (T.var v) ≡ t
  resolve_self =
      resolve-bound after after-IsTriangular v (bound-set s v t can.room)
      ∙ resolve_id after after-IsTriangular t t_Resolved

  still_bound : (i : ℕ) {u : T} → bound s i ≡ some u → bound after i ≡ some u
  still_bound i b = elim (Bool-cases (i == v)) [
    | inl same ↦ absurd (cc (rw (at_self i same) at b, can.free))
    | inr other ↦ bound-set_other s v i t other ∙ b
  ]

  follow_more :
      (n i : ℕ) → can.triangular.rank i ≤ n → resolve after (follow s n i) ≡ resolve after (T.var i)
  unfolding follow resolve replace
  follow_more zero i le = refl
  follow_more (suc n) i le = elim (Option-cases (bound s i)) [
    | inl b ↦ ap (resolve after) (follow_unbound s can.triangular (suc n) i b)
    | inr (u, b) ↦
        ap (resolve after) (follow-bound s can.triangular n i b)
        ∙ replace-replace (follow after (length after)) (follow s n) u
        ∙ replace_agree (λ w. resolve after (follow s n w)) (follow after (length after)) u
            (λ w m. follow_more n w (omega (arith, can.triangular.down i w b m)))
        ∙ sym (resolve-bound after after-IsTriangular i (still_bound i b))
  ]

  pub after-Extends : Extends s after
  unfolding resolve replace
  after-Extends u =
      replace-replace (follow after (length after)) (follow s (length s)) u
      ∙ replace_agree (λ w. resolve after (follow s (length s) w)) (follow after (length after)) u
          (λ w m. follow_more (length s) w (rank-le-length s can.triangular w))

-- A step from one substitution to another that is as well formed and knows more.
pub record Refines (s s' : List (Option T)) : Type 0 where
  pub triangular : IsTriangular s'
  pub extends : Extends s s'
  pub same_length : length s' ≡ length s
  pub progress : (s' ≡ s) ⊎ (bound_count s < bound_count s')

pub Refines-refl : {s : List (Option T)} → IsTriangular s → Refines s s
Refines-refl {s} tri = record {
  triangular = tri;
  extends = resolve-resolve s tri;
  same_length = refl;
  progress = inl refl;
}

progress_trans :
    {r s t : List (Option T)}
    → (s ≡ r) ⊎ (bound_count r < bound_count s)
    → (t ≡ s) ⊎ (bound_count s < bound_count t)
    → (t ≡ r) ⊎ (bound_count r < bound_count t)
progress_trans (inl e) (inl f) = inl (f ∙ e)
progress_trans (inl e) (inr m) = inr (rw (← e) m)
progress_trans (inr m) (inl f) = inr (rw f m)
progress_trans (inr m) (inr k) = inr (omega (arith, m, k))

pub Refines-trans : {r s t : List (Option T)} → Refines r s → Refines s t → Refines r t
Refines-trans {r} {s} {t} a b = record {
  triangular = b.triangular;
  extends = λ u. sym (b.extends (resolve r u)) ∙ ap (resolve t) (a.extends u) ∙ b.extends u;
  same_length = b.same_length ∙ a.same_length;
  progress = progress_trans a.progress b.progress;
}

-- A call that keeps the substitution well formed, and that makes two types equal if it is done.
pub record Solves (c : Checker) (a b : T) (r : Checker × Status) : Type 0 where
  pub refines : Refines c.subst r.0.subst
  pub solved : r.1 ≡ done → resolve r.0.subst a ≡ resolve r.0.subst b

pub failed_Solves :
    {c : Checker} {a b : T} {st : Status} → IsTriangular c.subst → st ≢ done → Solves c a b (c, st)
failed_Solves tri ne = record { refines = Refines-refl tri; solved = λ e. absurd (ne e) }

module _ (span : Span) where
  bind_as-Solves :
      (c : Checker) (v : ℕ) (t : T) (o : Option (List Kind))
      → CanBind c.subst v t
      → Solves c (T.var v) t (bind_as span c v t o)
  bind_as-Solves c v t none can = failed_Solves can.triangular (λ e. cc e)
  bind_as-Solves c v t (some kinds) can = record {
    refines = record {
      triangular = after-IsTriangular c.subst v t can;
      extends = after-Extends c.subst v t can;
      same_length = length-set c.subst v (some t);
      progress = inr (rw (bound_count-set c.subst v t can.room can.free) (omega arith));
    };
    solved = λ e.
        resolve_self c.subst v t can
        ∙ sym (resolve_id _ (after-IsTriangular c.subst v t can) t (t_Resolved c.subst v t can));
  }

  pub bind_var-Solves :
      (c : Checker) (v : ℕ) (t : T)
      → IsTriangular c.subst
      → v < length c.subst
      → bound c.subst v ≡ none
      → Resolved c.subst t
      → InScope c.subst t
      → Solves c (T.var v) t (bind_var span c v t)
  unfolding bind_var occurs
  bind_var-Solves c v t tri room free res scope = elim (Bool-cases (occurs c.subst v t)) [
    | inl loop ↦ rw (bind_var, loop) (failed_Solves tri (λ e. cc e))
    | inr no_loop ↦
        rw (bind_var, no_loop)
          (bind_as-Solves c v t _ (record {
            triangular = tri;
            room = room;
            free = free;
            resolved = res;
            scope = scope;
            apart = rw (resolve_id c.subst tri t res) at no_loop;
          }))
  ]
