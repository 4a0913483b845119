-- ===== src/Parser/Ahead.antt =====
-- src/parser.rs: the helpers, by the tokens that are ahead.
use vibelang.Base.{
  ℕ, zero, suc, ◌+◌, ◌<◌, Text, Bool, true, false, List, [], ◌∷◌, ◌≡◌, refl, sym, ap, ◌∙◌, arith,
  ◌==◌, length, get_or, drop, map, drop-drop, length-drop, get_or-drop, text_eq, text_eq_refl,
  if◌then◌else◌, Bool-cases, inl, inr,
}
use vibelang.Diag.{Span}
use vibelang.Lexer.{Tok, Token, is_sym, is_newline}
use vibelang.Parser.{Parser, cur, forward, skip, sync, eat_sym, end_token}

-- The tokens that are left.
unfoldable pub ahead : Parser → List Tok
ahead p = map (λ (t : Token). t.tok) (drop p.i p.toks)

-- `is_sym`, of a token without its span.
abbrev pub sym_is : Text → Tok → Bool
sym_is s (Tok.sym x) = text_eq x s
sym_is s _ = false

pub is_sym_lem : (s : Text) (t : Token) → is_sym s t ≡ sym_is s t.tok
unfolding is_sym
is_sym_lem s t = by_tok t.tok t.span
  where
    by_tok : (x : Tok) (at : Span) → is_sym s (record { tok = x; span = at }) ≡ sym_is s x
    by_tok (Tok.sym y) at = refl
    by_tok x at = refl

first_tok :
    (ts : List Token) {x : Tok} {xs : List Tok}
    → map (λ (t : Token). t.tok) ts ≡ x ∷ xs
    → ((get_or ts 0 end_token).tok ≡ x) × (0 < length ts)
first_tok [] h = cc h
first_tok (t ∷ ts) h = (cc h, omega arith)

pub cur-ahead : (p : Parser) {x : Tok} {xs : List Tok} → ahead p ≡ x ∷ xs → (cur p).tok ≡ x
unfolding ahead cur
cur-ahead p h =
    let (e, l) = first_tok (drop p.i p.toks) h in
    ap (λ (j : ℕ). (get_or p.toks j end_token).tok) {y = p.i + 0}
      (omega (arith, l, length-drop p.i p.toks))
    ∙ ap (λ (t : Token). t.tok) (sym (get_or-drop p.i 0 p.toks end_token))
    ∙ e

tail_toks :
    (ts : List Token) {x : Tok} {xs : List Tok}
    → map (λ (t : Token). t.tok) ts ≡ x ∷ xs
    → map (λ (t : Token). t.tok) (drop 1 ts) ≡ xs
tail_toks [] h = cc h
tail_toks (t ∷ ts) h = cc h

pub ahead-forward :
    (p : Parser) {x : Tok} {xs : List Tok} → ahead p ≡ x ∷ xs → ahead (forward 1 p) ≡ xs
unfolding ahead
ahead-forward p h =
    ap (map (λ (t : Token). t.tok)) (drop-drop p.i 1 p.toks) ∙ tail_toks (drop p.i p.toks) h

skip-ahead : (f : ℕ) (p : Parser) → is_newline (cur p).tok ≡ false → skip f p ≡ p
unfolding skip
skip-ahead zero p h = refl
skip-ahead (suc f) p h = rw (skip, h) refl

-- Nothing is skipped before a token that is no newline.
pub sync-ahead :
    (p : Parser) {x : Tok} {xs : List Tok} → ahead p ≡ x ∷ xs → is_newline x ≡ false → sync p ≡ p
unfolding sync
sync-ahead p h n =
    let m : is_newline (cur p).tok ≡ false = ap is_newline (cur-ahead p h) ∙ n in
    elim (Bool-cases (p.depth == 0)) [
      | inl y ↦ rw y refl
      | inr d ↦ rw d (skip-ahead (length p.toks) p m)
    ]

pub eat_sym-ahead :
    (s : Text) (p : Parser) {x : Tok} {xs : List Tok}
    → ahead p ≡ x ∷ xs
    → is_newline x ≡ false
    → eat_sym s p ≡ (if sym_is s x then (true, forward 1 p) else (false, p))
unfolding eat_sym
eat_sym-ahead s p {x} h n =
    ap (λ (q : Parser). if is_sym s (cur q) then (true, forward 1 q) else (false, q))
      (sync-ahead p h n)
    ∙ ap (λ (b : Bool). if b then (true, forward 1 p) else (false, p))
        (is_sym_lem s (cur p) ∙ ap (sym_is s) (cur-ahead p h))

-- A symbol that is ahead is eaten.
pub eat_sym-yes :
    (s : Text) (p : Parser) {xs : List Tok}
    → ahead p ≡ Tok.sym s ∷ xs
    → eat_sym s p ≡ (true, forward 1 p)
eat_sym-yes s p h = eat_sym-ahead s p h refl ∙ rw (text_eq_refl s) refl

-- Another token is not.
pub eat_sym-no :
    (s : Text) (p : Parser) {x : Tok} {xs : List Tok}
    → ahead p ≡ x ∷ xs
    → is_newline x ≡ false
    → sym_is s x ≡ false
    → eat_sym s p ≡ (false, p)
eat_sym-no s p h n m = eat_sym-ahead s p h n ∙ rw m refl
