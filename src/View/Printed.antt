-- ===== src/View/Printed.antt =====
-- src/view.rs: the types that are read back as they are printed, and how their texts start.
use vibelang.Base.{
  ℕ, Text, Bool, true, false, ◌&&◌, none, some, [], ◌∷◌, ◌++◌, ◌≡◌, refl, sym, ap, ◌∙◌, arith, ◌==◌,
  append_assoc, append-nil, Option-cases, inl, inr, and_true,
}
use vibelang.Ast.{Ty, Tys}
use vibelang.Parser.Spelling.{Level, split_dot, split_dot-eq_some, under_ref}
use vibelang.Parser.Types.Reads.{IsSpelled, AreSpelled}
use vibelang.View.Types.{print, arg_texts}
use vibelang.View.Spelled.{is_ctor_word, is_name_word}

-- A capitalised name, with or without its module.
abbrev pub is_type_name : Text → Bool
is_type_name n = elim (split_dot n) [
  | none ↦ is_ctor_word n
  | some (m, c) ↦ is_ctor_word m && is_ctor_word c
]

abbrev pub is_ref : Ty → Bool
is_ref (Ty.ref _) = true
is_ref _ = false

unfoldable mutual
  -- What the parser can give: names as the lexer reads them, tuples of two parts or more; and no borrow
  -- directly under a borrow.
  pub IsPrinted : Ty → Type 0
  IsPrinted (Ty.con n ts) = (is_type_name n ≡ true) × ArePrinted ts
  IsPrinted (Ty.var n) = is_name_word n ≡ true
  IsPrinted (Ty.fun a b) = IsPrinted a × IsPrinted b
  IsPrinted (Ty.ref t) = (is_ref t ≡ false) × IsPrinted t
  IsPrinted (Ty.eff t) = IsPrinted t
  IsPrinted (Ty.tuple Tys.nil) = ⊥
  IsPrinted (Ty.tuple (Tys.cons t Tys.nil)) = ⊥
  IsPrinted (Ty.tuple (Tys.cons t (Tys.cons u us))) = IsPrinted t × (IsPrinted u × ArePrinted us)

  pub ArePrinted : Tys → Type 0
  ArePrinted Tys.nil = Unit
  ArePrinted (Tys.cons t ts) = IsPrinted t × ArePrinted ts

mutual
  unfolding IsPrinted IsSpelled

  pub printed-IsSpelled : (t : Ty) → IsPrinted t → IsSpelled t
  printed-IsSpelled (Ty.con n ts) (h, s) = printed-AreSpelled ts s
  printed-IsSpelled (Ty.var n) s = tt
  printed-IsSpelled (Ty.fun a b) (s, r) = (printed-IsSpelled a s, printed-IsSpelled b r)
  printed-IsSpelled (Ty.ref t) (h, s) = printed-IsSpelled t s
  printed-IsSpelled (Ty.eff t) s = printed-IsSpelled t s
  printed-IsSpelled (Ty.tuple Tys.nil) s = s
  printed-IsSpelled (Ty.tuple (Tys.cons t Tys.nil)) s = s
  printed-IsSpelled (Ty.tuple (Tys.cons t (Tys.cons u us))) (s, (r, rs)) =
      (printed-IsSpelled t s, (printed-IsSpelled u r, printed-AreSpelled us rs))

  printed-AreSpelled : (ts : Tys) → ArePrinted ts → AreSpelled ts
  printed-AreSpelled Tys.nil s = tt
  printed-AreSpelled (Tys.cons t ts) (s, r) = (printed-IsSpelled t s, printed-AreSpelled ts r)

-- The text of a type that is no borrow, where a borrow asks for it, does not start with `&`.
abbrev pub NoAmpersand : Text → Type 0
NoAmpersand s = (c : ℕ) × (u : Text) × (s ≡ c ∷ u) × ((c == b'&') ≡ false)

word_first : (n rest : Text) → is_ctor_word n ≡ true → NoAmpersand (n ++ rest)
word_first [] rest h = cc h
word_first (c ∷ n) rest h = (c, n ++ rest, refl, ground (arith, h))

type_name_first : (n rest : Text) → is_type_name n ≡ true → NoAmpersand (n ++ rest)
type_name_first n rest h = elim (Option-cases (split_dot n)) [
  | inl e ↦ word_first n rest (rw (is_type_name, e) at h)
  | inr ((m, c), e) ↦
      let (u, v) = and_true (is_ctor_word m) (is_ctor_word c) (rw (is_type_name, e) at h) in
      let (x, xs, q, k) = word_first m (b'.' ∷ (c ++ rest)) u in
      (
        x,
        xs,
        ap (λ (s : Text). s ++ rest) (sym (split_dot-eq_some n e))
            ∙ append_assoc m (b'.' ∷ c) rest
            ∙ q,
        k,
      )
]

var_first : (n : Text) → is_name_word n ≡ true → NoAmpersand n
var_first [] h = cc h
var_first (c ∷ n) h = (c, n, refl, ground (arith, h))

pub print_first :
    (l : Level) (t : Ty) → IsPrinted t → is_ref t ≡ false → NoAmpersand (print (under_ref l) t)
unfolding print IsPrinted
print_first l (Ty.con n Tys.nil) (h, s) r =
    let (c, u, e, k) = type_name_first n [] h in (c, u, sym (append-nil n) ∙ e, k)
print_first Level.top (Ty.con n (Tys.cons t ts)) (h, s) r =
    type_name_first n (arg_texts (Tys.cons t ts)) h
print_first Level.app (Ty.con n (Tys.cons t ts)) (h, s) r =
    type_name_first n (arg_texts (Tys.cons t ts)) h
print_first Level.atom (Ty.con n (Tys.cons t ts)) s r = (b'(', _, refl, refl)
print_first l (Ty.var n) s r = var_first n s
print_first Level.top (Ty.fun a b) s r = (b'(', _, refl, refl)
print_first Level.app (Ty.fun a b) s r = (b'(', _, refl, refl)
print_first Level.atom (Ty.fun a b) s r = (b'(', _, refl, refl)
print_first l (Ty.ref t) s r = cc r
print_first Level.top (Ty.eff t) s r = (b'E', _, refl, refl)
print_first Level.app (Ty.eff t) s r = (b'E', _, refl, refl)
print_first Level.atom (Ty.eff t) s r = (b'(', _, refl, refl)
print_first l (Ty.tuple Tys.nil) s r = elim s [ ]
print_first l (Ty.tuple (Tys.cons t ts)) s r = (b'(', _, refl, refl)
