-- ===== src/Total/Lin/Meaning.antt =====
-- What a linear form stands for: its value when every atom has one. `delta` and `lex_decreases`
-- of src/total.rs are read against it.
use vibelang.Base.{
  Text, Bool, true, false, Option, none, some, [], ◌≡◌, refl, if◌then◌else◌, Bool-cases,
  Option-cases, ◌&&◌, ◌||◌, inl, inr,
}
use vibelang.Base.Int.{ℤ, pos, ◌+ℤ◌, ◌-ℤ◌, ◌*ℤ◌, int_laws, zero-+ℤ, *ℤ_comm}
use vibelang.Ast.{Expr}
use vibelang.Total.Show.{show}
use vibelang.Total.Lin.{
  Lin, ◌>>=◌, default, lin_var, minus_one, add_scaled, int_literal, is_op, lin_product, lin_sum,
  lin,
}
use vibelang.Total.Lin.Eval.{Valuation, >>=-eq-some, eval, one-*ℤ, eval-add_scaled, eval-scale}

unfoldable pub is_literal : Expr → Bool
is_literal (Expr.int _ _) = true
is_literal _ = false

is_literal-some : (e : Expr) {k : ℤ} → int_literal e ≡ some k → is_literal e ≡ true
unfolding is_literal
is_literal-some (Expr.int s n) h = refl
is_literal-some e h = cc

is_literal-none : (e : Expr) → int_literal e ≡ none → is_literal e ≡ false
unfolding is_literal
is_literal-none (Expr.int s n) h = cc
is_literal-none e h = refl

module _ (debug : Expr → Text) (ρ : Valuation) where
  -- What an expression is worth: integer arithmetic on literals, variables, `-`, `+` and on `*`
  -- with a literal factor, and a value of its own for every other way of writing.
  unfoldable pub value : Expr → ℤ
  value (Expr.int s n) = n
  value (Expr.var s n) = ρ n
  value (Expr.neg s a) = pos 0 -ℤ value a
  value (Expr.binop s op a b) =
      if is_op op "+"
      then value a +ℤ value b
      else if is_op op "-"
      then value a -ℤ value b
      else if is_op op "*" && (is_literal a || is_literal b)
      then value a *ℤ value b
      else ρ (show debug (Expr.binop s op a b))
  value e = ρ (show debug e)

  abbrev Agrees : Expr → Option Lin → Type 0
  Agrees e m = (l : Lin) → m ≡ some l → eval ρ l ≡ value e

  eval-lin_var : (n : Text) → eval ρ (lin_var n) ≡ ρ n
  unfolding eval
  eval-lin_var n = rw one-*ℤ (omega int_laws)

  eval_constant : (n : ℤ) → eval ρ (record { terms = []; c = n }) ≡ n
  unfolding eval
  eval_constant n = zero-+ℤ n

  lin_sum-value :
      (a b : Expr) (k : ℤ) (la lb : Option Lin) {l : Lin}
      → Agrees a la
      → Agrees b lb
      → lin_sum k la lb ≡ some l
      → eval ρ l ≡ value a +ℤ value b *ℤ k
  unfolding lin_sum
  lin_sum-value a b k none lb ha hb h = cc
  lin_sum-value a b k (some x) lb ha hb h =
      let (m, km, g) =
        >>=-eq-some (add_scaled default x (pos 1)) (λ l. lb >>= λ b. add_scaled l b k) h in
      let (y, ky, g') = >>=-eq-some lb (λ b. add_scaled m b k) g in
      rw (eval-add_scaled ρ m y k g', eval-scale ρ x (pos 1) km, ha x refl, hb y ky)
        (omega int_laws)

  value-int_literal : (e : Expr) {k : ℤ} → int_literal e ≡ some k → value e ≡ k
  unfolding value
  value-int_literal (Expr.int s n) h = cc
  value-int_literal e h = cc

  atom-value : (m : Lin) {l : Lin} {v : ℤ} → some m ≡ some l → eval ρ m ≡ v → eval ρ l ≡ v
  atom-value m {l} h e = let same : m ≡ l = cc in rw (← same) e

  -- `*` with a literal factor on either side.
  lin_product-value :
      (a b : Expr) (la lb : Option Lin) (t : Text) {l : Lin}
      → Agrees a la
      → Agrees b lb
      → lin_product (int_literal a) (int_literal b) la lb (lin_var t) ≡ some l
      → eval ρ l ≡ (if is_literal a || is_literal b then value a *ℤ value b else ρ t)
  unfolding lin_product
  lin_product-value a b la lb t ha hb h = elim (Option-cases (int_literal a)) [
    | inr (k, ka) ↦
        let (y, ky, g) = >>=-eq-some lb (λ l. add_scaled default l k) (rw ka at h) in
        rw (is_literal-some a ka, eval-scale ρ y k g, hb y ky, value-int_literal a ka)
          (*ℤ_comm (value b) k)
    | inl na ↦ elim (Option-cases (int_literal b)) [
      | inr (k, kb) ↦
          let (x, kx, g) = >>=-eq-some la (λ l. add_scaled default l k) (rw (na, kb) at h) in
          rw (
            is_literal-none a na,
            is_literal-some b kb,
            eval-scale ρ x k g,
            ha x kx,
            value-int_literal b kb,
          )
      | inl nb ↦
          rw (is_literal-none a na, is_literal-none b nb)
            (atom-value (lin_var t) (rw (na, nb) at h) (eval-lin_var t))
    ]
  ]

  lin_binop-value :
      (op : Text) (a b : Expr) (la lb : Option Lin) (t : Text) {l : Lin}
      → Agrees a la
      → Agrees b lb
      → (if is_op op "+"
          then lin_sum (pos 1) la lb
          else if is_op op "-"
          then lin_sum minus_one la lb
          else if is_op op "*"
          then lin_product (int_literal a) (int_literal b) la lb (lin_var t)
          else some (lin_var t))
        ≡ some l
      → eval ρ l ≡ (
          if is_op op "+"
          then value a +ℤ value b
          else if is_op op "-"
          then value a -ℤ value b
          else if is_op op "*" && (is_literal a || is_literal b)
          then value a *ℤ value b
          else ρ t)
  lin_binop-value op a b la lb t ha hb h = elim (Bool-cases (is_op op "+")) [
    | inl plus ↦ rw (plus, lin_sum-value a b (pos 1) la lb ha hb (rw plus at h)) (omega int_laws)
    | inr n1 ↦ elim (Bool-cases (is_op op "-")) [
      | inl minus ↦
          rw (n1, minus, lin_sum-value a b minus_one la lb ha hb (rw (n1, minus) at h))
            (omega int_laws)
      | inr n2 ↦ elim (Bool-cases (is_op op "*")) [
        | inl times ↦
            rw (n1, n2, times) (lin_product-value a b la lb t ha hb (rw (n1, n2, times) at h))
        | inr n3 ↦ rw (n1, n2, n3) (atom-value (lin_var t) (rw (n1, n2, n3) at h) (eval-lin_var t))
      ]
    ]
  ]

  -- If `lin` does not overflow, the form that it returns has the value of the expression, whatever
  -- its atoms are worth.
  pub eval-lin : (e : Expr) {l : Lin} → lin debug e ≡ some l → eval ρ l ≡ value e
  unfolding lin value
  eval-lin (Expr.int s n) h = atom-value (record { terms = []; c = n }) h (eval_constant n)
  eval-lin (Expr.var s n) h = atom-value (lin_var n) h (eval-lin_var n)
  eval-lin (Expr.neg s a) h =
      let (x, kx, g) = >>=-eq-some (lin debug a) (λ l. add_scaled default l minus_one) h in
      rw (eval-scale ρ x minus_one g, eval-lin a kx) (omega int_laws)
  eval-lin (Expr.binop s op a b) h =
      lin_binop-value op a b (lin debug a) (lin debug b) (show debug (Expr.binop s op a b))
        (λ l. eval-lin a) (λ l. eval-lin b) h
  eval-lin e h = atom-value (lin_var (show debug e)) h (eval-lin_var (show debug e))
