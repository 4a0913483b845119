-- ===== src/Types/Unify/Sound.antt =====
-- src/types.rs, `unify`: whatever comes of it the substitution stays well formed and only grows, and
-- two types that it is done with resolve to the same.
use vibelang.Base.{
  ℕ, zero, suc, ◌<◌, true, ◌&&◌, none, ◌≡◌, refl, sym, ◌∙◌, arith, ◌==◌, Bool-cases, inl, inr,
  length, Text, text_eq, text_eq→eq, and_true, if◌then◌else◌,
}
use vibelang.Diag.{Span}
use vibelang.Types.{T, Ts}
use vibelang.Types.Unify.{
  Checker, mentions, bound, resolve, done, bind_var, Unifier, unify_all, count, unify_resolved,
  unify,
}
use vibelang.Types.Unify.Triangular.{
  InScope, Resolved, IsTriangular, resolve-InScope, resolve-Resolved,
}
use vibelang.Types.Unify.Bind.{Refines, Refines-refl, Solves, failed_Solves, bind_var-Solves}
use vibelang.Types.Unify.Steps.{
  later-InScope, and_then-Solves, tuple_join, fun_join, Solves-con, Solves-eff, Solves_swap,
}

module _ (u : Unifier) where
  abbrev pub SolvesAll : Type 0
  SolvesAll =
      (c : Checker) (a b : T)
      → IsTriangular c.subst
      → InScope c.subst a
      → InScope c.subst b
      → Solves c a b (u c a b)

  module _ (below : SolvesAll) where
    unify_all-Solves :
        (c : Checker) (xs ys : Ts)
        → IsTriangular c.subst
        → InScope c.subst (T.tuple xs)
        → InScope c.subst (T.tuple ys)
        → (count xs == count ys) ≡ true
        → Solves c (T.tuple xs) (T.tuple ys) (unify_all u c xs ys)
    unfolding unify_all mentions
    unify_all-Solves c Ts.nil Ts.nil tri hx hy same = record {
      refines = Refines-refl tri;
      solved = λ e. refl;
    }
    unify_all-Solves c (Ts.cons x xs) (Ts.cons y ys) tri hx hy same =
        and_then-Solves c _ _ x y (T.tuple xs) (T.tuple ys) (u c x y) (λ c'. unify_all u c' xs ys)
          (below c x y tri (λ w m. hx w (rw m)) (λ w m. hy w (rw m)))
          (λ c' r.
            unify_all-Solves c' xs ys r.triangular
              (later-InScope (T.tuple xs) r (λ w m. hx w (ground (arith, m))))
              (later-InScope (T.tuple ys) r (λ w m. hy w (ground (arith, m)))) (ground arith))
          (tuple_join x y xs ys)
    unify_all-Solves c Ts.nil (Ts.cons y ys) tri hx hy same = absurd (ground arith)
    unify_all-Solves c (Ts.cons x xs) Ts.nil tri hx hy same = absurd (ground arith)

    var_bound : (c : Checker) (i : ℕ) → Resolved c.subst (T.var i) → bound c.subst i ≡ none
    unfolding mentions
    var_bound c i r = r i (ground arith)

    var_room : (c : Checker) (i : ℕ) → InScope c.subst (T.var i) → i < length c.subst
    unfolding mentions
    var_room c i h = h i (ground arith)

    module _ (span : Span) where
      bind_one :
          (c : Checker) (i : ℕ) (t : T)
          → IsTriangular c.subst
          → InScope c.subst (T.var i)
          → InScope c.subst t
          → Resolved c.subst (T.var i)
          → Resolved c.subst t
          → Solves c (T.var i) t (bind_var span c i t)
      bind_one c i t tri hi ht ri rt =
          bind_var-Solves span c i t tri (var_room c i hi) (var_bound c i ri) rt ht

      variables :
          (c : Checker) (i j : ℕ)
          → IsTriangular c.subst
          → InScope c.subst (T.var i)
          → InScope c.subst (T.var j)
          → Resolved c.subst (T.var i)
          → Resolved c.subst (T.var j)
          → Solves c (T.var i) (T.var j) (if i == j then (c, done) else bind_var span c i (T.var j))
      variables c i j tri hi hj ri rj = elim (Bool-cases (i == j)) [
        | inl same ↦
            let e : i ≡ j = ground (arith, same) in
            rw same (record { refines = Refines-refl tri; solved = λ d. rw e })
        | inr other ↦ rw other (bind_one c i (T.var j) tri hi hj ri rj)
      ]

      constructors :
          (c : Checker) (m n : Text) (xs ys : Ts)
          → IsTriangular c.subst
          → InScope c.subst (T.con m xs)
          → InScope c.subst (T.con n ys)
          → Solves c (T.con m xs) (T.con n ys) (unify_resolved span u c (T.con m xs) (T.con n ys))
      unfolding unify_resolved mentions
      constructors c m n xs ys tri ha hb = elim (Bool-cases (text_eq m n && count xs == count ys)) [
        | inl same ↦
            let (e, k) = and_true (text_eq m n) _ same in
            rw same (Solves-con (text_eq→eq m n e) (unify_all-Solves c xs ys tri ha hb k))
        | inr differ ↦ rw differ (failed_Solves tri (λ e. cc e))
      ]

      tuples :
          (c : Checker) (xs ys : Ts)
          → IsTriangular c.subst
          → InScope c.subst (T.tuple xs)
          → InScope c.subst (T.tuple ys)
          → Solves c (T.tuple xs) (T.tuple ys) (unify_resolved span u c (T.tuple xs) (T.tuple ys))
      unfolding unify_resolved
      tuples c xs ys tri ha hb = elim (Bool-cases (count xs == count ys)) [
        | inl same ↦ rw same (unify_all-Solves c xs ys tri ha hb same)
        | inr differ ↦ rw differ (failed_Solves tri (λ e. cc e))
      ]

      functions :
          (c : Checker) (p r q s : T)
          → IsTriangular c.subst
          → InScope c.subst (T.fun p r)
          → InScope c.subst (T.fun q s)
          → Solves c (T.fun p r) (T.fun q s) (unify_resolved span u c (T.fun p r) (T.fun q s))
      unfolding unify_resolved mentions
      functions c p r q s tri ha hb =
          and_then-Solves c _ _ p q r s (u c p q) (λ c'. u c' r s)
            (below c p q tri (λ w m. ha w (rw m)) (λ w m. hb w (rw m)))
            (λ c' k.
              below c' r s k.triangular (later-InScope r k (λ w m. ha w (ground (arith, m))))
                (later-InScope s k (λ w m. hb w (ground (arith, m)))))
            (fun_join p q r s)

      pub unify_resolved-Solves :
          (c : Checker) (a b : T)
          → IsTriangular c.subst
          → InScope c.subst a
          → InScope c.subst b
          → Resolved c.subst a
          → Resolved c.subst b
          → Solves c a b (unify_resolved span u c a b)
      unfolding unify_resolved
      unify_resolved-Solves c (T.var i) (T.var j) tri ha hb ra rb = variables c i j tri ha hb ra rb
      unify_resolved-Solves c (T.var i) (T.con n ys) tri ha hb ra rb =
          bind_one c i _ tri ha hb ra rb
      unify_resolved-Solves c (T.var i) (T.fun q s) tri ha hb ra rb = bind_one c i _ tri ha hb ra rb
      unify_resolved-Solves c (T.var i) (T.tuple ys) tri ha hb ra rb =
          bind_one c i _ tri ha hb ra rb
      unify_resolved-Solves c (T.var i) (T.eff y) tri ha hb ra rb = bind_one c i _ tri ha hb ra rb
      unify_resolved-Solves c (T.con n xs) (T.var j) tri ha hb ra rb =
          Solves_swap (bind_one c j _ tri hb ha rb ra)
      unify_resolved-Solves c (T.fun p r) (T.var j) tri ha hb ra rb =
          Solves_swap (bind_one c j _ tri hb ha rb ra)
      unify_resolved-Solves c (T.tuple xs) (T.var j) tri ha hb ra rb =
          Solves_swap (bind_one c j _ tri hb ha rb ra)
      unify_resolved-Solves c (T.eff x) (T.var j) tri ha hb ra rb =
          Solves_swap (bind_one c j _ tri hb ha rb ra)
      unify_resolved-Solves c (T.con m xs) (T.con n ys) tri ha hb ra rb =
          constructors c m n xs ys tri ha hb
      unify_resolved-Solves c (T.fun p r) (T.fun q s) tri ha hb ra rb =
          functions c p r q s tri ha hb
      unify_resolved-Solves c (T.tuple xs) (T.tuple ys) tri ha hb ra rb = tuples c xs ys tri ha hb
      unify_resolved-Solves c (T.eff x) (T.eff y) tri ha hb ra rb =
          Solves-eff (below c x y tri ha hb)
      unify_resolved-Solves c a b tri ha hb ra rb = failed_Solves tri (λ e. cc e)

module _ (span : Span) where
  pub unify-Solves : (n : ℕ) → SolvesAll (unify span n)
  unfolding unify
  unify-Solves zero c a b tri ha hb = failed_Solves tri (λ e. cc e)
  unify-Solves (suc n) c a b tri ha hb =
      let h =
        unify_resolved-Solves (unify span n) (unify-Solves n) span c (resolve c.subst a)
          (resolve c.subst b) tri (resolve-InScope c.subst tri a ha)
          (resolve-InScope c.subst tri b hb) (resolve-Resolved c.subst tri a)
          (resolve-Resolved c.subst tri b) in
      record {
        refines = h.refines;
        solved = λ e. sym (h.refines.extends a) ∙ h.solved e ∙ h.refines.extends b;
      }

  -- If the substitution before it is well formed and both types are in its scope, `unify` leaves, on any
  -- fuel and whatever comes of it, a well-formed substitution of the same length that resolves further
  -- what the one before it resolved.
  pub unify-Refines :
      (n : ℕ) (c : Checker) (a b : T)
      → IsTriangular c.subst
      → InScope c.subst a
      → InScope c.subst b
      → Refines c.subst (unify span n c a b).0.subst
  unify-Refines n c a b tri ha hb = (unify-Solves n c a b tri ha hb).refines

  -- If the substitution before it is well formed, both types are in its scope, and `unify` is done with
  -- them, then they resolve to the same type afterwards.
  pub resolve-unify :
      (n : ℕ) (c : Checker) (a b : T)
      → IsTriangular c.subst
      → InScope c.subst a
      → InScope c.subst b
      → (unify span n c a b).1 ≡ done
      → resolve (unify span n c a b).0.subst a ≡ resolve (unify span n c a b).0.subst b
  resolve-unify n c a b tri ha hb e = (unify-Solves n c a b tri ha hb).solved e
