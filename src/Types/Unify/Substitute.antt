-- ===== src/Types/Unify/Substitute.antt =====
-- src/types.rs: replacing the variables of a type, on which `resolve` rests.
use vibelang.Base.{ℕ, Bool, true, false, ◌||◌, ◌≡◌, refl, ap, arith, ◌⊎◌, inl, inr}
use vibelang.Types.{T, Ts}
use vibelang.Types.Unify.{replace, replace_all, mentions, mentions_any}

module _ (σ τ : ℕ → T) where
  mutual
    unfolding replace mentions

    -- Only the variables that stand in the type matter.
    pub replace_agree :
        (t : T) → ((i : ℕ) → mentions i t ≡ true → σ i ≡ τ i) → replace σ t ≡ replace τ t
    replace_agree (T.var i) h = h i (ground arith)
    replace_agree (T.con n ts) h = ap (T.con n) (replace_all_agree ts h)
    replace_agree (T.fun a b) h =
        cc (replace_agree a (λ i m. h i (rw m)), replace_agree b (λ i m. h i (ground (arith, m))))
    replace_agree (T.tuple ts) h = ap T.tuple (replace_all_agree ts h)
    replace_agree (T.eff t) h = ap T.eff (replace_agree t h)

    pub replace_all_agree :
        (ts : Ts)
        → ((i : ℕ) → mentions_any i ts ≡ true → σ i ≡ τ i)
        → replace_all σ ts ≡ replace_all τ ts
    replace_all_agree Ts.nil h = refl
    replace_all_agree (Ts.cons t ts) h =
        cc (
          replace_agree t (λ i m. h i (rw m)),
          replace_all_agree ts (λ i m. h i (ground (arith, m))),
        )

  mutual
    unfolding replace

    pub replace-replace : (t : T) → replace σ (replace τ t) ≡ replace (λ i. replace σ (τ i)) t
    replace-replace (T.var i) = refl
    replace-replace (T.con n ts) = ap (T.con n) (replace_all-replace_all ts)
    replace-replace (T.fun a b) = cc (replace-replace a, replace-replace b)
    replace-replace (T.tuple ts) = ap T.tuple (replace_all-replace_all ts)
    replace-replace (T.eff t) = ap T.eff (replace-replace t)

    pub replace_all-replace_all :
        (ts : Ts) → replace_all σ (replace_all τ ts) ≡ replace_all (λ i. replace σ (τ i)) ts
    replace_all-replace_all Ts.nil = refl
    replace_all-replace_all (Ts.cons t ts) = cc (replace-replace t, replace_all-replace_all ts)

mutual
  unfolding replace

  pub replace-var : (t : T) → replace T.var t ≡ t
  replace-var (T.var i) = refl
  replace-var (T.con n ts) = ap (T.con n) (replace_all-var ts)
  replace-var (T.fun a b) = cc (replace-var a, replace-var b)
  replace-var (T.tuple ts) = ap T.tuple (replace_all-var ts)
  replace-var (T.eff t) = ap T.eff (replace-var t)

  pub replace_all-var : (ts : Ts) → replace_all T.var ts ≡ ts
  replace_all-var Ts.nil = refl
  replace_all-var (Ts.cons t ts) = cc (replace-var t, replace_all-var ts)

pub or_cases : (a b : Bool) → (a || b) ≡ true → (a ≡ true) ⊎ (b ≡ true)
or_cases true b h = inl refl
or_cases false b h = inr h

module _ (σ : ℕ → T) (w : ℕ) where
  mutual
    unfolding replace mentions

    -- A variable of the result stands in what replaced a variable of the type.
    pub mentions-replace :
        (t : T)
        → mentions w (replace σ t) ≡ true
        → (i : ℕ) × (mentions i t ≡ true) × (mentions w (σ i) ≡ true)
    mentions-replace (T.var i) h = (i, ground arith, h)
    mentions-replace (T.con n ts) h = mentions_any-replace_all ts h
    mentions-replace (T.fun a b) h =
        elim (or_cases (mentions w (replace σ a)) (mentions w (replace σ b)) h) [
          | inl l ↦ let (i, m, k) = mentions-replace a l in (i, rw m, k)
          | inr r ↦ let (i, m, k) = mentions-replace b r in (i, ground (arith, m), k)
        ]
    mentions-replace (T.tuple ts) h = mentions_any-replace_all ts h
    mentions-replace (T.eff t) h = mentions-replace t h

    pub mentions_any-replace_all :
        (ts : Ts)
        → mentions_any w (replace_all σ ts) ≡ true
        → (i : ℕ) × (mentions_any i ts ≡ true) × (mentions w (σ i) ≡ true)
    mentions_any-replace_all Ts.nil h = absurd (cc h)
    mentions_any-replace_all (Ts.cons t ts) h =
        elim (or_cases (mentions w (replace σ t)) (mentions_any w (replace_all σ ts)) h) [
          | inl l ↦ let (i, m, k) = mentions-replace t l in (i, rw m, k)
          | inr r ↦ let (i, m, k) = mentions_any-replace_all ts r in (i, ground (arith, m), k)
        ]
