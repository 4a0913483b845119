-- ===== src/Total/Lin/Decrease.antt =====
-- src/total.rs, `delta` and `lex_decreases`: the gap that they find at a call is the gap between
-- the values of the two measures, for every value of the atoms.
use vibelang.Base.{
  ℕ, Text, true, Option, none, some, List, [], ◌∷◌, ◌≡◌, refl, sym, ap, arith, map, ◌==◌, length,
  get_elem?, if◌then◌else◌, Bool-cases, Option-cases, ◌∙◌, inl, inr,
}
use vibelang.Base.Int.{
  ℤ, pos, ◌+ℤ◌, ◌-ℤ◌, ◌*ℤ◌, ◌<ℤ◌, checked, checked-eq-some, int_laws, +ℤ-zero, *ℤ_neg,
}
use vibelang.Ast.{Expr}
use vibelang.Total.Lin.{
  Terms, Lin, ◌>>=◌, add_scaled, lin, position, substitute, then_some, gap_of, delta, is_drop,
  is_level, lex_level, lex_loop, lex_decreases,
}
use vibelang.Total.Lin.Eval.{Valuation, >>=-eq-some, eval_terms, eval, eval-add_scaled, is_zero→eq}
use vibelang.Total.Lin.Meaning.{value, eval-lin}

-- The first list is below the second: level up to a component that is less.
pub data LexLess : List ℤ → List ℤ → Type 0 where
  less : {a b : ℤ} {as' bs : List ℤ} → a <ℤ b → LexLess (a ∷ as') (b ∷ bs)
  level : {a b : ℤ} {as' bs : List ℤ} → a ≡ b → LexLess as' bs → LexLess (a ∷ as') (b ∷ bs)

-- `s + p = r + t` with `p = 0 - q` gives `s = r + (q + t)`.
shift : (s r t p q : ℤ) → s +ℤ p ≡ r +ℤ t → p ≡ pos 0 -ℤ q → s ≡ r +ℤ (q +ℤ t)
shift s r t p q h e =
    let undo : s ≡ s +ℤ p +ℤ q = rw e (omega int_laws) in undo ∙ rw h (omega int_laws)

then_some-eq :
    (ts : Terms) (c : ℤ) {g : ℤ} → some (then_some ts c) ≡ some (some g) → (ts ≡ []) × (c ≡ g)
unfolding then_some
then_some-eq [] c h = (refl, cc)
then_some-eq (t ∷ ts) c h = absurd (cc h)

gap_of-eq :
    (k : ℤ) (r : Option Lin) {g : ℤ}
    → gap_of k r ≡ some (some g)
    → (d : Lin) × (r ≡ some d) × (d.terms ≡ []) × (d.c -ℤ k ≡ g)
unfolding gap_of
gap_of-eq k none h = absurd (cc h)
gap_of-eq k (some d) h =
    let (c, kc, e) = >>=-eq-some (checked (d.c -ℤ k)) (λ c. some (then_some d.terms c)) h in
    let (empty, same) = then_some-eq d.terms c e in
    (d, refl, empty, checked-eq-some (d.c -ℤ k) kc ∙ same)

below : (b a g : ℤ) → pos 0 <ℤ g → a ≡ b +ℤ g → b <ℤ a
below b a g up e = rw e (omega int_laws)

module _ (debug : Expr → Text) (ρ : Valuation) (params : List Text) (args : List Expr) where
  worth : Text → Option Expr → ℤ
  worth x none = ρ x
  worth x (some e) = value debug ρ e

  argument : Option ℕ → Option Expr
  argument none = none
  argument (some i) = get_elem? args i

  -- The callee's parameters, each worth what its argument is worth at the call.
  unfoldable pub entry : Valuation
  unfolding position worth argument
  entry x = worth x (argument (position x params))

  entry-argument :
      (x : Text) {i : ℕ} {e : Expr}
      → position x params ≡ some i
      → get_elem? args i ≡ some e
      → entry x ≡ value debug ρ e
  unfolding entry
  entry-argument x p q = rw (entry, p, argument, q)

  eval-substitute :
      (d : Lin) (ts : Terms) {r : Lin}
      → substitute debug params args d ts ≡ some (some r)
      → eval ρ d ≡ eval ρ r +ℤ eval_terms entry ts
  unfolding substitute eval_terms
  eval-substitute d [] {r} h = let e : d ≡ r = cc in rw e (omega int_laws)
  eval-substitute d ((x, k) ∷ ts) {r} h = elim (Option-cases (position x params)) [
    | inl p ↦ absurd (cc (rw (substitute, p) at h))
    | inr (i, p) ↦ elim (Option-cases (get_elem? args i)) [
      | inl q ↦ absurd (cc (rw (substitute, p, q) at h))
      | inr (e, q) ↦
          let (l, kl, g) =
            >>=-eq-some (lin debug e)
              (λ l. checked (pos 0 -ℤ k) >>= λ m.
                add_scaled d l m >>= λ d'. substitute debug params args d' ts)
              (rw (substitute, p, q) at h) in
          let (m, km, g') =
            >>=-eq-some (checked (pos 0 -ℤ k))
              (λ m. add_scaled d l m >>= λ d'. substitute debug params args d' ts) g in
          let (d', kd, g'') =
            >>=-eq-some (add_scaled d l m) (λ d'. substitute debug params args d' ts) g' in
          shift (eval ρ d) (eval ρ r) (eval_terms entry ts) (value debug ρ e *ℤ m) (k *ℤ entry x)
            (ap (λ (t : ℤ). eval ρ d +ℤ t *ℤ m) (sym (eval-lin debug ρ e kl))
              ∙ sym (eval-add_scaled ρ d l m kd)
              ∙ eval-substitute d' ts g'')
            (rw (← checked-eq-some (pos 0 -ℤ k) km, entry-argument x p q)
              (*ℤ_neg (value debug ρ e) k))
    ]
  ]

  -- If `delta` returns a gap, it is by how much the caller's component exceeds the callee's, whatever
  -- the atoms are worth, the callee's being evaluated with its parameters worth their arguments.
  pub eval-delta :
      (caller callee : Lin) {g : ℤ}
      → delta debug caller callee params args ≡ some (some g)
      → eval ρ caller ≡ eval entry callee +ℤ g
  unfolding delta eval
  eval-delta caller callee {g} h = elim (Bool-cases (length args == length params)) [
    | inr no_match ↦ absurd (cc (rw no_match at h))
    | inl match ↦
        let (r, kr, e) =
          >>=-eq-some (substitute debug params args caller callee.terms) (gap_of callee.c)
            (rw match at h) in
        let (d, kd, empty, gap) = gap_of-eq callee.c r e in
        eval-substitute caller callee.terms (kr ∙ ap some kd) ∙ rw (empty, ← gap) (omega int_laws)
  ]

  is_drop-gap : (g : Option ℤ) → is_drop g ≡ true → (d : ℤ) × (g ≡ some d) × (pos 0 <ℤ d)
  is_drop-gap none h = absurd (cc h)
  is_drop-gap (some d) h = (d, refl, ground arith)

  is_level-gap : (g : Option ℤ) → is_level g ≡ true → g ≡ some (pos 0)
  is_level-gap none h = absurd (cc h)
  is_level-gap (some d) h = rw (is_zero→eq d h)

  lex_loop-LexLess :
      (as' bs : List Lin)
      → lex_loop debug as' bs params args ≡ some true
      → LexLess (map (eval entry) bs) (map (eval ρ) as')
  unfolding lex_loop
  lex_loop-LexLess (a ∷ as') (b ∷ bs) h =
      let (g, kg, e) =
        >>=-eq-some (delta debug a b params args)
          (λ g. if is_drop g then some true else lex_level g (lex_loop debug as' bs params args))
          h in
      elim (Bool-cases (is_drop g)) [
        | inl drop ↦
            let (d, same, up) = is_drop-gap g drop in
            less (below (eval entry b) (eval ρ a) d up (eval-delta a b (kg ∙ ap some same)))
        | inr no_drop ↦ elim (Bool-cases (is_level g)) [
          | inl even ↦
              level (sym (eval-delta a b (kg ∙ ap some (is_level-gap g even)) ∙ +ℤ-zero _))
                (lex_loop-LexLess as' bs (rw (no_drop, lex_level, even) at e))
          | inr rises ↦ absurd (cc (rw (no_drop, lex_level, rises) at e))
        ]
      ]
  lex_loop-LexLess _ _ h = absurd (cc h)

  -- A call that `lex_decreases` accepts lowers the measure: whatever the atoms are worth, the
  -- callee's components on entry are lexicographically below the caller's.
  pub lex_decreases-LexLess :
      (caller callee : List Lin)
      → lex_decreases debug caller callee params args ≡ some true
      → LexLess (map (eval entry) callee) (map (eval ρ) caller)
  unfolding lex_decreases
  lex_decreases-LexLess caller callee h = elim (Bool-cases (length caller == length callee)) [
    | inl same ↦ lex_loop-LexLess caller callee (rw same at h)
    | inr differ ↦ absurd (cc (rw differ at h))
  ]
