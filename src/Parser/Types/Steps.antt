-- ===== src/Parser/Types/Steps.antt =====
-- src/parser.rs: each function on types, by the tokens that are ahead.
use vibelang.Base.{
  ℕ, zero, suc, ◌+◌, Text, Bool, true, false, not, ◌&&◌, ◌||◌, List, [], ◌∷◌, ◌++◌, codes, text_eq,
  ◌≡◌, refl, ap, ◌∙◌, arith, get_or, drop, map, Option-cases, inl, inr,
}
use vibelang.Lexer.{Tok, Token, is_sym, is_newline}
use vibelang.Parser.{Parser, Parsed, ok, cur, forward, ctor_name, end_token, qualified_name}
use vibelang.Parser.Ahead.{ahead, sym_is, is_sym_lem, cur-ahead, ahead-forward}
use vibelang.Parser.Spelling.{split_dot, split_dot-eq_some, name_tokens}
use vibelang.Parser.Types

-- A result that is there, with the tokens that are left.
abbrev pub Reads : {A : Type 0} → Parsed A → A → List Tok → Type 0
Reads r a rest = (p : Parser) × (r ≡ ok a p) × (ahead p ≡ rest)

-- What may follow a name, an application and a type.
abbrev pub after_atom : Tok → Bool
after_atom x = not (is_newline x) && not (sym_is (codes ".") x)

abbrev pub starts_tok : Tok → Bool
starts_tok x =
    Types.is_name x || sym_is (codes "(") x || sym_is (codes "&") x || sym_is (codes "E!") x

abbrev pub after_app : Tok → Bool
after_app x = after_atom x && not (starts_tok x)

abbrev pub after_top : Tok → Bool
after_top x = after_app x && not (sym_is (codes "->") x)

second_tok :
    (i : ℕ) (ts : List Token) {x y : Tok} {xs : List Tok}
    → map (λ (t : Token). t.tok) (drop i ts) ≡ x ∷ y ∷ xs
    → (get_or ts (i + 1) end_token).tok ≡ y
second_tok zero [] h = cc h
second_tok zero (t ∷ []) h = cc h
second_tok zero (t ∷ u ∷ ts) h = cc h
second_tok (suc i) [] h = cc h
second_tok (suc i) (t ∷ ts) h =
    ap (λ (j : ℕ). (get_or (t ∷ ts) j end_token).tok) {x = suc i + 1} {y = suc (i + 1)}
      (omega arith)
    ∙ second_tok i ts h

second_ahead :
    (p : Parser) {x y : Tok} {xs : List Tok}
    → ahead p ≡ x ∷ y ∷ xs
    → (get_or p.toks (p.i + 1) end_token).tok ≡ y
unfolding ahead
second_ahead p h = second_tok p.i p.toks h

ctor_name-ahead :
    (p : Parser) (n : Text) {xs : List Tok}
    → ahead p ≡ Tok.ctor n ∷ xs
    → ctor_name p ≡ qualified_name n (forward 1 p)
unfolding ctor_name
ctor_name-ahead p n h = rw (ctor_name, cur-ahead p h) refl

-- A name with its qualifier is read, up to what follows it.
pub read_name :
    (p : Parser) (n : Text) {x : Tok} {xs : List Tok}
    → ahead p ≡ name_tokens n ++ x ∷ xs
    → after_atom x ≡ true
    → (p' : Parser) × (ctor_name p ≡ (n, p')) × (ahead p' ≡ x ∷ xs)
unfolding name_tokens text_eq
read_name p n {x} {xs} h follows = elim (Option-cases (split_dot n)) [
  | inl e ↦
      let h1 : ahead p ≡ Tok.ctor n ∷ x ∷ xs = rw e at h in
      let h2 : ahead (forward 1 p) ≡ x ∷ xs = ahead-forward p h1 in
      let no_dot : is_sym (codes ".") (cur (forward 1 p)) ≡ false =
        is_sym_lem (codes ".") (cur (forward 1 p))
        ∙ ap (sym_is (codes ".")) (cur-ahead (forward 1 p) h2)
        ∙ ground (arith, follows) in
      (forward 1 p, ctor_name-ahead p n h1 ∙ rw no_dot refl, h2)
  | inr ((m, c), e) ↦
      let h1 : ahead p ≡ Tok.ctor m ∷ Tok.sym (codes ".") ∷ Tok.ctor c ∷ x ∷ xs = rw e at h in
      let h2 : ahead (forward 1 p) ≡ Tok.sym (codes ".") ∷ Tok.ctor c ∷ x ∷ xs =
        ahead-forward p h1 in
      let h3 : ahead (forward 1 (forward 1 p)) ≡ Tok.ctor c ∷ x ∷ xs =
        ahead-forward (forward 1 p) h2 in
      let h4 : ahead (forward 1 (forward 1 (forward 1 p))) ≡ x ∷ xs =
        ahead-forward (forward 1 (forward 1 p)) h3 in
      let dot : is_sym (codes ".") (cur (forward 1 p)) ≡ true =
        is_sym_lem (codes ".") (cur (forward 1 p))
        ∙ ap (sym_is (codes ".")) (cur-ahead (forward 1 p) h2) in
      let second : (get_or p.toks (p.i + 1 + 1) end_token).tok ≡ Tok.ctor c =
        second_ahead (forward 1 p) h2 in
      (
        forward 2 (forward 1 p),
        ctor_name-ahead p m h1
            ∙ rw (dot, second)
                (ap (λ (t : Text). (t, forward 2 (forward 1 p))) (split_dot-eq_some n e)),
        ap (λ (j : ℕ). ahead (record p { i = j })) {x = p.i + 1 + 2} {y = p.i + 1 + 1 + 1}
              (omega arith)
            ∙ h4,
      )
]

-- A type that starts with a name is no other atom.
pub name_first :
    (n : Text) (ts : List Tok)
    → (m : Text) × (us : List Tok) × (name_tokens n ++ ts ≡ Tok.ctor m ∷ us)
unfolding name_tokens
name_first n ts = elim (Option-cases (split_dot n)) [
  | inl e ↦ rw e (n, ts, refl)
  | inr ((m, c), e) ↦ rw e (m, Tok.sym (codes ".") ∷ Tok.ctor c ∷ ts, refl)
]

pub starts_atom-ahead :
    (p : Parser) {x : Tok} {xs : List Tok}
    → ahead p ≡ x ∷ xs
    → Types.starts_atom (cur p) ≡ starts_tok x
unfolding Types.starts_atom
starts_atom-ahead p {x} h =
    let e : (s : Text) → is_sym s (cur p) ≡ sym_is s x =
      λ s. is_sym_lem s (cur p) ∙ ap (sym_is s) (cur-ahead p h) in
    rw (Types.starts_atom, e (codes "("), e (codes "&"), e (codes "E!"), cur-ahead p h) refl
