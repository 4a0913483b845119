-- ===== src/Total/Lin.antt =====
-- src/total.rs, `Lin`, `lin`, `components`, `delta` and `lex_decreases`: measures as linear forms.
-- An `i128` operation that overflows panics, as it does under overflow checks; `none` is the panic.
-- The hash map of a form is an association list, in some order.
pub mod Eval
pub mod Meaning
pub mod Decrease
use vibelang.Base.{
  ℕ, suc, String, Text, Bool, true, false, Option, none, some, List, [], ◌∷◌, codes, ◌==◌, length,
  get_elem?, text_eq, not, if◌then◌else◌,
}
use vibelang.Base.Int.{ℤ, pos, negsuc, ◌+ℤ◌, ◌-ℤ◌, ◌*ℤ◌, is_zero, is_positive, checked}
use vibelang.Ast.{Expr, exprs}
use vibelang.Total.Show.{show}

abbrev pub Terms : Type 0
Terms = List (Text × ℤ)

pub record Lin : Type 0 where
  pub terms : Terms
  pub c : ℤ

infixl 5 ◌>>=◌
abbrev pub ◌>>=◌ {ℓ κ} : {A : Type ℓ} {B : Type κ} → Option A → (A → Option B) → Option B
none >>= f = none
some a >>= f = f a

-- `Lin::default` and `Lin::var`.
abbrev pub default : Lin
default = record { terms = []; c = pos 0 }

abbrev pub lin_var : Text → Lin
lin_var name = record { terms = (name, pos 1) ∷ []; c = pos 0 }

abbrev pub minus_one : ℤ
minus_one = negsuc 0

-- The entry of an atom, which is removed when its coefficient has become zero.
pub store : Text → ℤ → Terms → Terms
store a e ts = if is_zero e then ts else (a, e) ∷ ts

-- What the loop of `add_scaled` does to the entry of one atom: `or_insert(0)`, `+=` and the
-- removal.
pub bump : Text → ℤ → Terms → Option Terms
unfolding store
bump a v [] = some (store a v [])
bump a v ((b, w) ∷ ts) =
    let rest = bump a v ts in
    if text_eq a b
    then (do e ← checked (w +ℤ v); some (store b e ts))
    else (do ts' ← rest; some ((b, w) ∷ ts'))

pub add_terms : ℤ → Terms → Terms → Option Terms
add_terms k [] ts = some ts
add_terms k ((a, v) ∷ os) ts = do p ← checked (v *ℤ k); ts' ← bump a p ts; add_terms k os ts'

-- `Lin::add_scaled`.
unfoldable pub add_scaled : Lin → Lin → ℤ → Option Lin
unfolding bump add_terms checked
add_scaled l o k = do
  p ← checked (o.c *ℤ k)
  c' ← checked (l.c +ℤ p)
  ts ← add_terms k o.terms l.terms
  some (record { terms = ts; c = c' })

abbrev pub int_literal : Expr → Option ℤ
int_literal (Expr.int _ k) = some k
int_literal _ = none

-- The arm of `*`, from the forms of the two factors.
pub lin_product : Option ℤ → Option ℤ → Option Lin → Option Lin → Lin → Option Lin
lin_product (some k) _ la lb atom = do l ← lb; add_scaled default l k
lin_product none (some k) la lb atom = do l ← la; add_scaled default l k
lin_product none none la lb atom = some atom

pub lin_sum : ℤ → Option Lin → Option Lin → Option Lin
lin_sum k la lb = do a ← la; l ← add_scaled default a (pos 1); b ← lb; add_scaled l b k

abbrev pub is_op : Text → String → Bool
is_op op s = text_eq op (codes s)

-- `components`.
unfoldable pub components : Expr → List Expr
components (Expr.tuple s xs) = exprs xs
components e = e ∷ []

-- `iter().position(|p| p == atom)`.
unfoldable pub position : Text → List Text → Option ℕ
position a [] = none
position a (p ∷ ps) =
    if text_eq p a then some 0 else elim (position a ps) [ none ↦ none | some i ↦ some (suc i) ]

-- `terms.is_empty().then_some(c)`.
pub then_some : Terms → ℤ → Option ℤ
then_some [] g = some g
then_some (_ ∷ _) g = none

pub gap_of : ℤ → Option Lin → Option (Option ℤ)
unfolding then_some checked
gap_of k none = some none
gap_of k (some d) = do g ← checked (d.c -ℤ k); some (then_some d.terms g)

abbrev pub is_drop : Option ℤ → Bool
is_drop none = false
is_drop (some d) = is_positive d

abbrev pub is_level : Option ℤ → Bool
is_level none = false
is_level (some d) = is_zero d

-- The arms after a drop: `continue` on a level component, and `false` otherwise.
pub lex_level : Option ℤ → Option Bool → Option Bool
lex_level g rest = if is_level g then rest else some false

module _ (debug : Expr → Text) where
  -- `lin`.
  unfoldable pub lin : Expr → Option Lin
  unfolding lin_product lin_sum add_scaled
  lin (Expr.int s n) = some (record { terms = []; c = n })
  lin (Expr.var s n) = some (lin_var n)
  lin (Expr.neg s a) = do l ← lin a; add_scaled default l minus_one
  lin (Expr.binop s op a b) =
      if is_op op "+"
      then lin_sum (pos 1) (lin a) (lin b)
      else if is_op op "-"
      then lin_sum minus_one (lin a) (lin b)
      else if is_op op "*"
      then lin_product (int_literal a) (int_literal b) (lin a) (lin b)
          (lin_var (show debug (Expr.binop s op a b)))
      else some (lin_var (show debug (Expr.binop s op a b)))
  lin e = some (lin_var (show debug e))

  -- The loop of `delta` over the callee's terms: `some none` is the early return of `None`.
  unfoldable pub substitute : List Text → List Expr → Lin → Terms → Option (Option Lin)
  unfolding lin add_scaled position
  substitute params args d [] = some (some d)
  substitute params args d ((atom, k) ∷ ts) = elim (position atom params) [
    | none ↦ some none
    | some i ↦ elim (get_elem? args i) [
      | none ↦ none
      | some e ↦ do
        l ← lin e
        m ← checked (pos 0 -ℤ k)
        d' ← add_scaled d l m
        substitute params args d' ts
    ]
  ]

  -- `delta`.
  unfoldable pub delta : Lin → Lin → List Text → List Expr → Option (Option ℤ)
  unfolding substitute gap_of
  delta caller callee params args =
      if not (length args == length params)
      then some none
      else (do r ← substitute params args caller callee.terms; gap_of callee.c r)

  -- The loop of `lex_decreases` over the components, paired by `zip`.
  unfoldable pub lex_loop : List Lin → List Lin → List Text → List Expr → Option Bool
  unfolding delta lex_level
  lex_loop (a ∷ as') (b ∷ bs) params args = do
    d ← delta a b params args
    if is_drop d then some true else lex_level d (lex_loop as' bs params args)
  lex_loop _ _ params args = some false

  -- `lex_decreases`.
  unfoldable pub lex_decreases : List Lin → List Lin → List Text → List Expr → Option Bool
  unfolding lex_loop
  lex_decreases caller callee params args =
      if not (length caller == length callee)
      then some false
      else lex_loop caller callee params args
