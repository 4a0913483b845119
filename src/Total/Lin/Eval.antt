-- ===== src/Total/Lin/Eval.antt =====
-- src/total.rs, `Lin`: the value of a linear form when every atom has one.
use vibelang.Base.{
  Text, true, Option, none, some, [], ◌∷◌, ◌≡◌, refl, arith, text_eq, text_eq→eq, Bool-cases, ◌∙◌,
  inl, inr,
}
use vibelang.Base.Int.{
  ℤ, pos, ◌+ℤ◌, ◌*ℤ◌, is_zero, checked, checked-eq-some, int_laws, zero-+ℤ, +ℤ-*ℤ, *ℤ_assoc,
  *ℤ_comm,
}
use vibelang.Total.Lin.{Terms, Lin, ◌>>=◌, default, bump, store, add_terms, add_scaled}

abbrev pub Valuation : Type 0
Valuation = Text → ℤ

pub >>=-eq-some {ℓ κ} :
    {A : Type ℓ} {B : Type κ} (m : Option A) (f : A → Option B) {b : B}
    → (m >>= f) ≡ some b
    → (a : A) × (m ≡ some a) × (f a ≡ some b)
>>=-eq-some none f h = cc
>>=-eq-some (some a) f h = (a, refl, h)

unfoldable pub eval_terms : Valuation → Terms → ℤ
eval_terms ρ [] = pos 0
eval_terms ρ ((a, v) ∷ ts) = v *ℤ ρ a +ℤ eval_terms ρ ts

unfoldable pub eval : Valuation → Lin → ℤ
unfolding eval_terms
eval ρ l = eval_terms ρ l.terms +ℤ l.c

pub is_zero→eq : (v : ℤ) → is_zero v ≡ true → v ≡ pos 0
is_zero→eq v h = ground arith

pub zero-*ℤ : (x : ℤ) → pos 0 *ℤ x ≡ pos 0
zero-*ℤ x = omega int_laws

pub one-*ℤ : (x : ℤ) → pos 1 *ℤ x ≡ x
one-*ℤ x = omega int_laws

swap_factor : (v k x s t : ℤ) → s +ℤ v *ℤ k *ℤ x +ℤ t *ℤ k ≡ s +ℤ (v *ℤ x +ℤ t) *ℤ k
swap_factor v k x s t = rw (+ℤ-*ℤ, *ℤ_assoc v k x, *ℤ_assoc v x k, *ℤ_comm k x) (omega int_laws)

module _ (ρ : Valuation) where
  eval-store :
      (a : Text) (e : ℤ) (ts : Terms) → eval_terms ρ (store a e ts) ≡ e *ℤ ρ a +ℤ eval_terms ρ ts
  unfolding store eval_terms
  eval-store a e ts = elim (Bool-cases (is_zero e)) [
    | inl z ↦ rw (z, is_zero→eq e z) (rw zero-*ℤ (omega int_laws))
    | inr n ↦ rw n
  ]

  eval-bump :
      (a : Text) (v : ℤ) (ts : Terms) {us : Terms}
      → bump a v ts ≡ some us
      → eval_terms ρ us ≡ eval_terms ρ ts +ℤ v *ℤ ρ a
  unfolding bump eval_terms
  eval-bump a v [] {us} h =
      let e : store a v [] ≡ us = cc in rw (← e) (eval-store a v [] ∙ omega int_laws)
  eval-bump a v ((b, w) ∷ ts) {us} h = elim (Bool-cases (text_eq a b)) [
    | inl same ↦
        let (e, k, g) = >>=-eq-some (checked (w +ℤ v)) (λ e. some (store b e ts)) (rw same at h) in
        let u : store b e ts ≡ us = cc in
        let sum : w +ℤ v ≡ e = checked-eq-some (w +ℤ v) k in
        rw (← u, text_eq→eq a b same, eval-store b e ts, ← sum, +ℤ-*ℤ w v) (omega int_laws)
    | inr differ ↦
        let (us', k, g) = >>=-eq-some (bump a v ts) (λ us'. some ((b, w) ∷ us')) (rw differ at h) in
        let u : ◌≡◌ {A = Terms} ((b, w) ∷ us') us = cc in
        rw (← u, eval-bump a v ts k) (omega int_laws)
  ]

  eval-add_terms :
      (k : ℤ) (os ts : Terms) {us : Terms}
      → add_terms k os ts ≡ some us
      → eval_terms ρ us ≡ eval_terms ρ ts +ℤ eval_terms ρ os *ℤ k
  unfolding add_terms eval_terms
  eval-add_terms k [] ts {us} h = let u : ts ≡ us = cc in rw (← u, zero-*ℤ) (omega int_laws)
  eval-add_terms k ((a, v) ∷ os) ts h =
      let (p, kp, g) =
        >>=-eq-some (checked (v *ℤ k)) (λ p. bump a p ts >>= λ ts'. add_terms k os ts') h in
      let (ts', kb, g') = >>=-eq-some (bump a p ts) (λ ts'. add_terms k os ts') g in
      rw (eval-add_terms k os ts' g', eval-bump a p ts kb, ← checked-eq-some (v *ℤ k) kp)
        (swap_factor v k (ρ a) (eval_terms ρ ts) (eval_terms ρ os))

  pub eval-add_scaled :
      (l o : Lin) (k : ℤ) {m : Lin}
      → add_scaled l o k ≡ some m
      → eval ρ m ≡ eval ρ l +ℤ eval ρ o *ℤ k
  unfolding add_scaled eval
  eval-add_scaled l o k {m} h =
      let (p, kp, g) =
        >>=-eq-some (checked (o.c *ℤ k))
          (λ p. checked (l.c +ℤ p) >>= λ c'.
            add_terms k o.terms l.terms >>= λ ts. some (record { terms = ts; c = c' }))
          h in
      let (c', kc, g') =
        >>=-eq-some (checked (l.c +ℤ p))
          (λ c'. add_terms k o.terms l.terms >>= λ ts. some (record { terms = ts; c = c' })) g in
      let (ts, kt, g'') =
        >>=-eq-some (add_terms k o.terms l.terms) (λ ts. some (record { terms = ts; c = c' })) g' in
      let u : ◌≡◌ {A = Lin} (record { terms = ts; c = c' }) m = cc in
      rw
        (
          ← u,
          eval-add_terms k o.terms l.terms kt,
          ← checked-eq-some (l.c +ℤ p) kc,
          ← checked-eq-some (o.c *ℤ k) kp,
          +ℤ-*ℤ,
        )
        (omega int_laws)

  pub eval-scale :
      (o : Lin) (k : ℤ) {m : Lin} → add_scaled default o k ≡ some m → eval ρ m ≡ eval ρ o *ℤ k
  unfolding eval
  eval-scale o k h = eval-add_scaled default o k h ∙ rw (zero-+ℤ (pos 0)) (zero-+ℤ (eval ρ o *ℤ k))
