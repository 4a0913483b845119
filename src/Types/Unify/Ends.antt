-- ===== src/Types/Unify/Ends.antt =====
-- src/types.rs, `unify` ends: each call below another binds a variable first or is about a smaller
-- type.
use vibelang.Base.{
  ℕ, zero, suc, ◌+◌, ◌≤◌, ◌<◌, Bool, true, false, ◌&&◌, ◌≡◌, refl, subst, arith, ◌==◌, Bool-cases,
  Option-cases, get_or, inl, inr, length, text_eq, codes, if◌then◌else◌,
}
use native.Mathlib.Nat.{le_refl}
use vibelang.Diag.{Span, error}
use vibelang.Types.{T, Ts}
use vibelang.Types.Unify.{
  any, Checker, mentions, resolve, done, failed, Run, and_then, bind_var, bind_kinds, occurs,
  unify_all, count, unify_resolved, unify,
}
use vibelang.Types.Unify.Triangular.{
  InScope, Resolved, IsTriangular, resolve-InScope, resolve-Resolved, resolve_id, bound_count,
  bound_count-le-length,
}
use vibelang.Types.Unify.Bind.{Refines, Refines-refl, Refines-trans}
use vibelang.Types.Unify.Steps.{later-InScope}
use vibelang.Types.Unify.Sound.{unify-Solves}
use vibelang.Types.Unify.Fuel.{ran_out, unify_all-Below, unify-more, Ends, and_then-Ends}

unfoldable mutual
  pub size : T → ℕ
  size (T.var i) = 1
  size (T.con n ts) = suc (sizes ts)
  size (T.fun a b) = suc (size a + size b)
  size (T.tuple ts) = suc (sizes ts)
  size (T.eff t) = suc (size t)

  pub sizes : Ts → ℕ
  sizes Ts.nil = 0
  sizes (Ts.cons t ts) = size t + sizes ts

size_positive : (t : T) → 0 < size t
unfolding size
size_positive (T.var i) = omega arith
size_positive (T.con n ts) = omega arith
size_positive (T.fun a b) = omega arith
size_positive (T.tuple ts) = omega arith
size_positive (T.eff t) = omega arith

-- Binding a variable needs no fuel.
bind_var-ran_out :
    (span : Span) (c : Checker) (v : ℕ) (t : T) → ran_out (bind_var span c v t) ≡ false
unfolding bind_var
bind_var-ran_out span c v t = elim (Bool-cases (occurs c.subst v t)) [
  | inl loop ↦ rw loop refl
  | inr no_loop ↦ elim (Option-cases (bind_kinds (get_or c.kinds v any) t c.kinds)) [
    | inl refused ↦ rw (no_loop, refused) refl
    | inr (kinds, ok) ↦ rw (no_loop, ok) refl
  ]
]

-- How many variables are free is at most `k`, and is less than `k`.
abbrev FreeAtMost : ℕ → Checker → Type 0
FreeAtMost k c = length c.subst ≤ bound_count c.subst + k

abbrev FreeBelow : ℕ → Checker → Type 0
FreeBelow k c = length c.subst < bound_count c.subst + k

module _ (span : Span) where
  abbrev AllEnd : (Checker → T → Type 0) → Type 0
  AllEnd P =
      (c : Checker) (a b : T)
      → IsTriangular c.subst
      → InScope c.subst a
      → InScope c.subst b
      → P c a
      → Ends (λ n. unify span n c a b)

  module _ (k z : ℕ) (fewer : AllEnd (λ c a. FreeBelow k c))
      (smaller : AllEnd (λ c a. FreeAtMost k c × (size (resolve c.subst a) ≤ z))) where
    -- After some steps, on a part of a type that was resolved before them.
    part :
        (c c' : Checker) (a b : T)
        → InScope c.subst a
        → InScope c.subst b
        → Resolved c.subst a
        → FreeAtMost k c
        → size a ≤ z
        → Refines c.subst c'.subst
        → IsTriangular c.subst
        → Ends (λ n. unify span n c' a b)
    part c c' a b ha hb ra free le r tri = elim r.progress [
      | inl same ↦
          smaller c' a b r.triangular (later-InScope a r ha) (later-InScope b r hb)
            (rw same free, rw (same, resolve_id c.subst tri a ra) le)
      | inr more ↦
          fewer c' a b r.triangular (later-InScope a r ha) (later-InScope b r hb)
            (rw r.same_length (omega (arith, free, more)))
    ]

    args :
        (c c' : Checker) (xs ys : Ts)
        → InScope c.subst (T.tuple xs)
        → InScope c.subst (T.tuple ys)
        → Resolved c.subst (T.tuple xs)
        → FreeAtMost k c
        → sizes xs ≤ z
        → Refines c.subst c'.subst
        → IsTriangular c.subst
        → Ends (λ n. unify_all (unify span n) c' xs ys)
    unfolding unify_all mentions size
    args c c' (Ts.cons x xs) (Ts.cons y ys) hx hy rx free le r tri =
        let (n, h) =
          part c c' x y (λ w m. hx w (rw m)) (λ w m. hy w (rw m)) (λ w m. rx w (rw m)) free
            (omega (arith, le)) r tri in
        let first =
          (unify-Solves span n c' x y r.triangular (later-InScope x r (λ w m. hx w (rw m)))
            (later-InScope y r (λ w m. hy w (rw m)))).refines in
        and_then-Ends (λ n. unify span n c' x y) (λ n c''. unify_all (unify span n) c'' xs ys)
          (λ n m l g. unify-more span n m c' x y l g)
          (λ c'' n m l g.
            unify_all-Below (unify span n) (unify span m) (λ d a b. unify-more span n m d a b l) c''
              xs ys g)
          n (unify span n c' x y) refl h
          (λ c'' e.
            args c c'' xs ys (λ w m. hx w (ground (arith, m))) (λ w m. hy w (ground (arith, m)))
              (λ w m. rx w (ground (arith, m))) free (omega (arith, le))
              (Refines-trans r (subst (λ (q : Run). Refines c'.subst q.0.subst) e first)) tri)
    args c c' Ts.nil ys hx hy rx free le r tri = (0, refl)
    args c c' (Ts.cons x xs) Ts.nil hx hy rx free le r tri = (0, refl)

    functions :
        (c : Checker) (p r q s : T)
        → IsTriangular c.subst
        → InScope c.subst (T.fun p r)
        → InScope c.subst (T.fun q s)
        → Resolved c.subst (T.fun p r)
        → FreeAtMost k c
        → size p + size r ≤ z
        → Ends (λ n. and_then (unify span n c p q) λ c'. unify span n c' r s)
    unfolding mentions
    functions c p r q s tri ha hb ra free le =
        let (n, h) =
          part c c p q (λ w m. ha w (rw m)) (λ w m. hb w (rw m)) (λ w m. ra w (rw m)) free
            (omega (arith, le)) (Refines-refl tri) tri in
        let first =
          (unify-Solves span n c p q tri (λ w m. ha w (rw m)) (λ w m. hb w (rw m))).refines in
        and_then-Ends (λ n. unify span n c p q) (λ n c'. unify span n c' r s)
          (λ n m l g. unify-more span n m c p q l g) (λ c' n m l g. unify-more span n m c' r s l g)
          n (unify span n c p q) refl h
          (λ c' e.
            part c c' r s (λ w m. ha w (ground (arith, m))) (λ w m. hb w (ground (arith, m)))
              (λ w m. ra w (ground (arith, m))) free (omega (arith, le))
              (subst (λ (x : Run). Refines c.subst x.0.subst) e first) tri)

    lists :
        (same : Bool) (r : ℕ → Run) (d : Run)
        → ran_out d ≡ false
        → Ends r
        → Ends (λ n. if same then r n else d)
    lists true r d h ends = ends
    lists false r d h ends = (0, h)

    abbrev mismatch : Checker → Run
    mismatch c = (c, failed (error span (codes "type.mismatch")))

    variables :
        (c : Checker) (i j : ℕ)
        → ran_out (if i == j then (c, done) else bind_var span c i (T.var j)) ≡ false
    variables c i j = elim (Bool-cases (i == j)) [
      | inl same ↦ rw same refl
      | inr other ↦ rw other (bind_var-ran_out span c i (T.var j))
    ]

    resolved_Ends :
        (c : Checker) (a b : T)
        → IsTriangular c.subst
        → InScope c.subst a
        → InScope c.subst b
        → Resolved c.subst a
        → FreeAtMost k c
        → size a ≤ suc z
        → Ends (λ n. unify_resolved span (unify span n) c a b)
    unfolding unify_resolved size mentions
    resolved_Ends c (T.var i) (T.var j) tri ha hb ra free le = (0, variables c i j)
    resolved_Ends c (T.var i) b tri ha hb ra free le = (0, bind_var-ran_out span c i b)
    resolved_Ends c a (T.var j) tri ha hb ra free le = (0, bind_var-ran_out span c j a)
    resolved_Ends c (T.con m xs) (T.con n ys) tri ha hb ra free le =
        lists (text_eq m n && count xs == count ys) (λ k. unify_all (unify span k) c xs ys)
          (mismatch c) refl
          (args c c xs ys ha hb ra free (omega (arith, le)) (Refines-refl tri) tri)
    resolved_Ends c (T.fun p r) (T.fun q s) tri ha hb ra free le =
        functions c p r q s tri ha hb ra free (omega (arith, le))
    resolved_Ends c (T.tuple xs) (T.tuple ys) tri ha hb ra free le =
        lists (count xs == count ys) (λ k. unify_all (unify span k) c xs ys) (mismatch c) refl
          (args c c xs ys ha hb ra free (omega (arith, le)) (Refines-refl tri) tri)
    resolved_Ends c (T.eff x) (T.eff y) tri ha hb ra free le =
        part c c x y ha hb ra free (omega (arith, le)) (Refines-refl tri) tri
    resolved_Ends c a b tri ha hb ra free le = (0, refl)

  on_size :
      (k z : ℕ)
      → AllEnd (λ c a. FreeBelow k c)
      → AllEnd (λ c a. FreeAtMost k c × (size (resolve c.subst a) ≤ z))
  unfolding unify
  on_size k zero fewer c a b tri ha hb (free, le) =
      absurd (omega (arith, size_positive (resolve c.subst a), le))
  on_size k (suc z) fewer c a b tri ha hb (free, le) =
      let (n, h) =
        resolved_Ends k z fewer (on_size k z fewer) c (resolve c.subst a) (resolve c.subst b) tri
          (resolve-InScope c.subst tri a ha) (resolve-InScope c.subst tri b hb)
          (resolve-Resolved c.subst tri a) free le in
      (suc n, h)

  on_free : (k : ℕ) → AllEnd (λ c a. FreeAtMost k c)
  on_free zero c a b tri ha hb free =
      on_size 0 (size (resolve c.subst a))
        (λ c' a' b' tri' ha' hb' h. absurd (omega (arith, bound_count-le-length c'.subst, h))) c a b
        tri ha hb (free, le_refl _)
  on_free (suc k) c a b tri ha hb free =
      on_size (suc k) (size (resolve c.subst a))
        (λ c' a' b' tri' ha' hb' h. on_free k c' a' b' tri' ha' hb' (omega (arith, h))) c a b tri ha
        hb (free, le_refl _)

  -- `unify` ends on types in scope under a well-formed substitution: some fuel is enough, and more
  -- changes nothing.
  pub unify-Ends :
      (c : Checker) (a b : T)
      → IsTriangular c.subst
      → InScope c.subst a
      → InScope c.subst b
      → (n : ℕ) × (ran_out (unify span n c a b) ≡ false)
        × ((k : ℕ) → unify span (n + k) c a b ≡ unify span n c a b)
  unify-Ends c a b tri ha hb =
      let (n, h) = on_free (length c.subst) c a b tri ha hb (omega arith) in
      (n, h, λ k. unify-more span n (n + k) c a b (omega arith) h)
