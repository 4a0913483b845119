-- ===== src/Total/Calls/Mentions.antt =====
-- src/total.rs, `scan`: the calls that it lists are the mentions of module functions in the body.
use vibelang.Base.{
  ℕ, Text, Option, none, some, List, [], ◌∷◌, ◌++◌, map, ◌≡◌, refl, sym, ap, In, here, there,
  In-append, In-append_left, In-append_right, In-cons, Option-cases, ◌⊎◌, inl, inr, ◌∙◌,
}
use vibelang.Diag.{Span}
use vibelang.Ast.{Expr, exprs, children, span_of}
use vibelang.Ast.Fold.{Expr-induction}
use vibelang.Total.Calls.{
  Call, flatten_calls, head_index, mention_index, call_args, bare, skip_head, scan_node, scan,
  scan_lem,
}

module _ (index : Text → Option ℕ) where
  -- The name of function `i` stands somewhere in the expression.
  pub data Mentions (i : ℕ) : Expr → Type 0 where
    named : {e : Expr} → mention_index index e ≡ some i → Mentions i e
    inside : {e c : Expr} → In c (children e) → Mentions i c → Mentions i e

  In-flatten_calls :
      {k : Call} {c : Expr} (cs : List Expr)
      → In c cs
      → In k (scan index c)
      → In k (flatten_calls (map (scan index) cs))
  unfolding flatten_calls
  In-flatten_calls [] m h = elim m [ ]
  In-flatten_calls (c ∷ cs) here h = In-append_left _ h
  In-flatten_calls (c ∷ cs) (there m) h = In-append_right (scan index c) (In-flatten_calls cs m h)

  flatten_calls-In :
      {k : Call} (cs : List Expr)
      → In k (flatten_calls (map (scan index) cs))
      → (c : Expr) × In c cs × In k (scan index c)
  unfolding flatten_calls
  flatten_calls-In [] m = elim m [ ]
  flatten_calls-In (c ∷ cs) m = elim (In-append (scan index c) _ m) [
    | inl h ↦ (c, here, h)
    | inr h ↦ let (d, n, h') = flatten_calls-In cs h in (d, there n, h')
  ]

  bare-callee : (o : Option ℕ) (s : Span) {k : Call} → In k (bare o s ++ []) → o ≡ some k.callee
  unfolding bare
  bare-callee none s m = elim m [ ]
  bare-callee (some i) s here = refl
  bare-callee (some i) s (there m) = elim m [ ]

  named_call :
      (e : Expr) {i : ℕ}
      → mention_index index e ≡ some i
      → (k : Call) × In k (scan index e) × (k.callee ≡ i)
  unfolding scan mention_index bare
  named_call (Expr.var s n) {i} h =
      (record { callee = i; args = []; span = s }, rw (h, bare) here, refl)
  named_call e h = absurd (cc h)

  -- Under a saturated call, what the head would give is the call itself.
  below_head :
      (e : Expr) {i : ℕ} {c : Expr} {k : Call}
      → head_index index e ≡ some i
      → In c (children e)
      → In k (scan index c)
      → (k.callee ≡ i) ⊎ In k (flatten_calls (skip_head (map (scan index) (children e))))
  unfolding head_index children skip_head scan mention_index
  below_head (Expr.app s (Expr.var t n) args) h here m = inl (cc (h, bare-callee (index n) t m))
  below_head (Expr.app s (Expr.var t n) args) h (there p) m =
      inr (In-flatten_calls (exprs args) p m)
  below_head e h p m = absurd (cc h)

  head_mentions : (e : Expr) {i : ℕ} → head_index index e ≡ some i → Mentions i e
  unfolding head_index children mention_index
  head_mentions (Expr.app s (Expr.var t n) args) h = inside here (named h)
  head_mentions e h = absurd (cc h)

  -- If the name of a function of the module stands somewhere in an expression, `scan` lists a call
  -- of that function.
  pub scan_complete :
      {i : ℕ} (e : Expr) → Mentions i e → (k : Call) × In k (scan index e) × (k.callee ≡ i)
  unfolding scan_node
  scan_complete e (named h) = named_call e h
  scan_complete e (inside {c} p d) =
      let (k, m, same) = scan_complete c d in
      elim (Option-cases (head_index index e)) [
        | inl no_call ↦ (
          k,
          rw (scan_lem, no_call, scan_node) (In-append_right _ (In-flatten_calls _ p m)),
          same,
        )
        | inr (j, call) ↦ elim (below_head e call p m) [
          | inl head ↦ (
            record { callee = j; args = call_args e; span = span_of e },
            rw (scan_lem, call, scan_node) here,
            sym head ∙ same,
          )
          | inr below ↦ (k, rw (scan_lem, call, scan_node) (there below), same)
        ]
      ]

  In-skip_head :
      {k : Call} (css : List (List Call))
      → In k (flatten_calls (skip_head css))
      → In k (flatten_calls css)
  unfolding skip_head flatten_calls
  In-skip_head [] m = m
  In-skip_head (cs ∷ css) m = In-append_right cs m

  abbrev Sound : Expr → Type 0
  Sound e = (k : Call) → In k (scan index e) → Mentions k.callee e

  scan_step : (e : Expr) → ((c : Expr) → In c (children e) → Sound c) → Sound e
  unfolding scan_node
  scan_step e ih k m = elim (Option-cases (head_index index e)) [
    | inl no_call ↦
        elim (In-append (bare (mention_index index e) (span_of e)) _
          (rw (scan_lem, no_call, scan_node) at m)) [
            | inl h ↦ named (bare-callee (mention_index index e) (span_of e) (In-append_left [] h))
            | inr h ↦ let (c, p, n) = flatten_calls-In (children e) h in inside p (ih c p k n)
          ]
    | inr (j, call) ↦ elim (In-cons (rw (scan_lem, call, scan_node) at m)) [
      | inl same ↦ head_mentions e (call ∙ ap some (sym (ap (λ (c : Call). c.callee) same)))
      | inr h ↦
          let (c, p, n) = flatten_calls-In (children e) (In-skip_head _ h) in inside p (ih c p k n)
    ]
  ]

  -- For every call that `scan` lists, the name of the callee stands in the expression.
  pub scan_sound : (e : Expr) (k : Call) → In k (scan index e) → Mentions k.callee e
  scan_sound = Expr-induction Sound scan_step
