-- ===== src/Types/Unify/Fuel.antt =====
-- src/types.rs, `unify` on fuel: a run that does not run out is the run on any more fuel.
use vibelang.Base.{
  ℕ, zero, suc, ◌+◌, ◌≤◌, Bool, true, false, ◌&&◌, ◌≡◌, refl, sym, ap, ◌∙◌, arith, ◌==◌, leb,
  Bool-cases, inl, inr, text_eq,
}
use vibelang.Diag.{Span}
use vibelang.Types.{T, Ts}
use vibelang.Types.Unify.{
  Checker, resolve, done, failed, out_of_fuel, Run, and_then, Unifier, unify_all, count,
  unify_resolved, unify,
}

abbrev pub ran_out : Run → Bool
ran_out (c, out_of_fuel) = true
ran_out (c, done) = false
ran_out (c, failed d) = false

-- What one answers without running out, the other answers too.
abbrev pub Below : Unifier → Unifier → Type 0
Below u w = (c : Checker) (a b : T) → ran_out (u c a b) ≡ false → w c a b ≡ u c a b

and_then-Below :
    (r r' : Run) (k k' : Checker → Run)
    → (ran_out r ≡ false → r' ≡ r)
    → ((c : Checker) → ran_out (k c) ≡ false → k' c ≡ k c)
    → ran_out (and_then r k) ≡ false
    → and_then r' k' ≡ and_then r k
and_then-Below (c, done) r' k k' first next h = rw (first refl) (next c h)
and_then-Below (c, failed d) r' k k' first next h = rw (first refl)
and_then-Below (c, out_of_fuel) r' k k' first next h = absurd (cc h)

module _ (u w : Unifier) (less : Below u w) where
  pub unify_all-Below :
      (c : Checker) (xs ys : Ts)
      → ran_out (unify_all u c xs ys) ≡ false
      → unify_all w c xs ys ≡ unify_all u c xs ys
  unfolding unify_all
  unify_all-Below c (Ts.cons x xs) (Ts.cons y ys) h =
      and_then-Below (u c x y) (w c x y) (λ c'. unify_all u c' xs ys) (λ c'. unify_all w c' xs ys)
        (less c x y) (λ c'. unify_all-Below c' xs ys) h
  unify_all-Below c Ts.nil ys h = refl
  unify_all-Below c (Ts.cons x xs) Ts.nil h = refl

  unify_resolved-Below : (span : Span) → Below (unify_resolved span u) (unify_resolved span w)
  unfolding unify_resolved
  unify_resolved-Below span c (T.con m xs) (T.con n ys) h =
      elim (Bool-cases (text_eq m n && count xs == count ys)) [
        | inl same ↦ rw same (unify_all-Below c xs ys (rw same at h))
        | inr differ ↦ rw differ
      ]
  unify_resolved-Below span c (T.fun p r) (T.fun q s) h =
      and_then-Below (u c p q) (w c p q) (λ c'. u c' r s) (λ c'. w c' r s) (less c p q)
        (λ c'. less c' r s) h
  unify_resolved-Below span c (T.tuple xs) (T.tuple ys) h =
      elim (Bool-cases (count xs == count ys)) [
        | inl same ↦ rw same (unify_all-Below c xs ys (rw same at h))
        | inr differ ↦ rw differ
      ]
  unify_resolved-Below span c (T.eff x) (T.eff y) h = less c x y h
  unify_resolved-Below span c a b h = refl

module _ (span : Span) where
  more_fuel : (n : ℕ) → Below (unify span n) (unify span (suc n))
  unfolding unify
  more_fuel zero c a b h = absurd (cc h)
  more_fuel (suc n) c a b h =
      unify_resolved-Below (unify span n) (unify span (suc n)) (more_fuel n) span c
        (resolve c.subst a) (resolve c.subst b) h

  -- Fuel beyond what is enough changes nothing.
  pub unify-more :
      (n m : ℕ) (c : Checker) (a b : T)
      → n ≤ m
      → ran_out (unify span n c a b) ≡ false
      → unify span m c a b ≡ unify span n c a b
  unify-more n zero c a b le h =
      let e : n ≡ 0 = omega arith in ap (λ (k : ℕ). unify span k c a b) (sym e)
  unify-more n (suc m) c a b le h = elim (Bool-cases (leb n m)) [
    | inl less ↦ let e = unify-more n m c a b (ground arith) h in more_fuel m c a b (rw e h) ∙ e
    | inr more ↦ let e : n ≡ suc m = ground arith in ap (λ (k : ℕ). unify span k c a b) (sym e)
  ]

-- There is fuel on which a run that depends on it does not run out.
abbrev pub Ends : (ℕ → Run) → Type 0
Ends r = (n : ℕ) × (ran_out (r n) ≡ false)

-- More fuel does not change a run that did not run out.
abbrev pub Settles : (ℕ → Run) → Type 0
Settles r = (n m : ℕ) → n ≤ m → ran_out (r n) ≡ false → r m ≡ r n

pub and_then-Ends :
    (r : ℕ → Run) (k : ℕ → Checker → Run)
    → Settles r
    → ((c : Checker) → Settles (λ n. k n c))
    → (n : ℕ) (q : Run) → r n ≡ q
    → ran_out q ≡ false
    → ((c : Checker) → q ≡ (c, done) → Ends (λ n. k n c))
    → Ends (λ n. and_then (r n) (k n))
and_then-Ends r k sr sk n (c, done) e h next =
    let (m, g) = next c refl in
    let first : r (n + m) ≡ (c, done) = sr n (n + m) (omega arith) (rw e refl) ∙ e in
    (n + m, rw (first, sk c m (n + m) (omega arith) g) g)
and_then-Ends r k sr sk n (c, failed d) e h next = (n, rw e refl)
and_then-Ends r k sr sk n (c, out_of_fuel) e h next = absurd (cc h)
