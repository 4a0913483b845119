-- ===== src/View/Spelled.antt =====
-- src/view.rs with src/lexer.rs: a type as `view` prints it is lexed to the tokens that spell it.
use vibelang.Base.{
  ℕ, Text, Bool, true, false, not, ◌&&◌, ◌||◌, List, [], ◌∷◌, ◌++◌, codes, ◌≡◌, refl, ap, ◌∙◌,
  arith, ◌==◌, length, all, take, drop, count_while, text_eq, contains, take-append, drop-append,
  Bool-cases, inl, inr, and_true, not_true, if◌then◌else◌, is_digit,
}
use vibelang.Lexer.{Tok, is_newline, keywords}
use vibelang.Lexer.Scan.{
  took, at, scan, number, string, character, word, word_token, symbol, starts_with, in_word,
  is_upper, is_lower, is_alpha,
}
use vibelang.Lexer.Run.{blank_at}
use vibelang.Lexer.Spells.{Spells, blank, token}

-- What may follow a name in the text.
abbrev pub stops : Text → Bool
stops [] = true
stops (c ∷ s) = not (in_word c) && not (c == b'!')

-- A word that is no keyword, and starts with a capital or not.
abbrev pub is_word : Text → Bool
is_word n = all in_word n && not (contains keywords n)

abbrev pub is_ctor_word : Text → Bool
is_ctor_word n = is_upper (at 0 n) && is_word n

abbrev pub is_name_word : Text → Bool
is_name_word n = (is_lower (at 0 n) || at 0 n == b'_') && is_word n

count-word :
    (n rest : Text)
    → all in_word n ≡ true
    → stops rest ≡ true
    → count_while in_word (n ++ rest) ≡ length n
count-word [] [] h s = refl
count-word [] (c ∷ rest) h s = ground (arith, s)
count-word (c ∷ n) rest h s = ground (arith, h, count-word n rest, s)

stop_at : (rest : Text) → stops rest ≡ true → (at 0 rest == b'!') ≡ false
stop_at [] s = refl
stop_at (c ∷ rest) s = ground (arith, s)

at-length : (n rest : Text) → at (length n) (n ++ rest) ≡ at 0 rest
at-length [] rest = refl
at-length (c ∷ n) rest = at-length n rest

word-word :
    (n rest : Text)
    → all in_word n ≡ true
    → stops rest ≡ true
    → word (n ++ rest) ≡ took (word_token n) (length n)
unfolding word
word-word n rest h s =
    let k : count_while in_word (n ++ rest) ≡ length n = count-word n rest h s in
    let t : take (length n) (n ++ rest) ≡ n = take-append n rest in
    let e : (at (length n) (n ++ rest) == b'!') ≡ false =
      ap (λ (c : ℕ). c == b'!') (at-length n rest) ∙ stop_at rest s in
    rw (word, k, t, e)
      (elim (Bool-cases (text_eq n (codes "E"))) [ inl y ↦ rw y refl | inr o ↦ rw o refl ])

-- A word with a letter or `_` first is scanned as a word.
scan-word :
    (parse_f64 : Text → ℕ) (c : ℕ) (n rest : Text)
    → (is_alpha c || c == b'_') ≡ true
    → all in_word (c ∷ n) ≡ true
    → stops rest ≡ true
    → scan parse_f64 (c ∷ (n ++ rest)) ≡ took (word_token (c ∷ n)) (length (c ∷ n))
unfolding scan
scan-word parse_f64 c n rest a h s =
    let digit : is_digit c ≡ false = ground (arith, a) in
    let quote : (c == b'"') ≡ false = ground (arith, a) in
    let single : (c == b'\'') ≡ false = ground (arith, a) in
    let u : Text = c ∷ (n ++ rest) in
    ap
      (λ (b : Bool).
        if b
        then number parse_f64 u
        else if c == b'"'
        then string u
        else if c == b'\''
        then character u
        else if is_alpha c || c == b'_'
        then word u
        else symbol u)
      digit
    ∙ ap
        (λ (b : Bool).
          if b
          then string u
          else if c == b'\''
          then character u
          else if is_alpha c || c == b'_'
          then word u
          else symbol u)
        quote
    ∙ ap
        (λ (b : Bool).
          if b then character u else if is_alpha c || c == b'_' then word u else symbol u)
        single
    ∙ ap (λ (b : Bool). if b then word u else symbol u) a
    ∙ word-word (c ∷ n) rest h s

module _ (parse_f64 : Text → ℕ) where
  word_token-Spells :
      (c : ℕ) (n rest : Text) {ts : List Tok} (t : Tok)
      → (is_alpha c || c == b'_') ≡ true
      → all in_word (c ∷ n) ≡ true
      → stops rest ≡ true
      → word_token (c ∷ n) ≡ t
      → is_newline t ≡ false
      → Spells parse_f64 rest ts
      → Spells parse_f64 (c ∷ (n ++ rest)) (t ∷ ts)
  unfolding blank_at
  word_token-Spells c n rest {ts} t a h s e nn w =
      let back : drop (length n) (n ++ rest) ≡ rest = drop-append n rest in
      token t (length (c ∷ n)) (ground (arith, a)) (ground (arith, a)) (λ q. cc q)
        (scan-word parse_f64 c n rest a h s ∙ ap (λ (u : Tok). took u (length (c ∷ n))) e) nn
        (rw back w)

  -- A capitalised word.
  pub ctor-Spells :
      (n rest : Text) {ts : List Tok}
      → is_ctor_word n ≡ true
      → stops rest ≡ true
      → Spells parse_f64 rest ts
      → Spells parse_f64 (n ++ rest) (Tok.ctor n ∷ ts)
  ctor-Spells [] rest h s w = cc h
  ctor-Spells (c ∷ n) rest h s w =
      let (u, k) = and_true (is_upper c) (is_word (c ∷ n)) h in
      let (i, m) = and_true (all in_word (c ∷ n)) (not (contains keywords (c ∷ n))) k in
      word_token-Spells c n rest (Tok.ctor (c ∷ n)) (ground (arith, u)) i s
        (rw (not_true (contains keywords (c ∷ n)) m, u) refl) refl w

  -- A word in lower case.
  pub name-Spells :
      (n rest : Text) {ts : List Tok}
      → is_name_word n ≡ true
      → stops rest ≡ true
      → Spells parse_f64 rest ts
      → Spells parse_f64 (n ++ rest) (Tok.name n ∷ ts)
  name-Spells [] rest h s w = cc h
  name-Spells (c ∷ n) rest h s w =
      let (u, k) = and_true (is_lower c || c == b'_') (is_word (c ∷ n)) h in
      let (i, m) = and_true (all in_word (c ∷ n)) (not (contains keywords (c ∷ n))) k in
      let low : is_upper c ≡ false = ground (arith, u) in
      word_token-Spells c n rest (Tok.name (c ∷ n)) (ground (arith, u)) i s
        (rw (not_true (contains keywords (c ∷ n)) m, low) refl) refl w

  pub open-Spells :
      (s : Text) {ts : List Tok}
      → Spells parse_f64 s ts
      → Spells parse_f64 (b'(' ∷ s) (Tok.sym (codes "(") ∷ ts)
  unfolding scan symbol starts_with blank_at
  open-Spells s w = token (Tok.sym (codes "(")) 1 refl refl (λ q. cc q) refl refl w

  pub close-Spells :
      (s : Text) {ts : List Tok}
      → Spells parse_f64 s ts
      → Spells parse_f64 (b')' ∷ s) (Tok.sym (codes ")") ∷ ts)
  unfolding scan symbol starts_with blank_at
  close-Spells s w = token (Tok.sym (codes ")")) 1 refl refl (λ q. cc q) refl refl w

  pub comma-Spells :
      (s : Text) {ts : List Tok}
      → Spells parse_f64 s ts
      → Spells parse_f64 (b',' ∷ b' ' ∷ s) (Tok.sym (codes ",") ∷ ts)
  unfolding scan symbol starts_with blank_at
  comma-Spells s w = token (Tok.sym (codes ",")) 1 refl refl (λ q. cc q) refl refl (blank w)

  pub dot-Spells :
      (s : Text) {ts : List Tok}
      → Spells parse_f64 s ts
      → Spells parse_f64 (b'.' ∷ s) (Tok.sym (codes ".") ∷ ts)
  unfolding scan symbol starts_with blank_at
  dot-Spells s w = token (Tok.sym (codes ".")) 1 refl refl (λ q. cc q) refl refl w

  pub arrow-Spells :
      (s : Text) {ts : List Tok}
      → Spells parse_f64 s ts
      → Spells parse_f64 (codes " -> " ++ s) (Tok.sym (codes "->") ∷ ts)
  unfolding scan symbol starts_with blank_at
  arrow-Spells s w =
      blank (token (Tok.sym (codes "->")) 2 refl refl (λ q. cc q) refl refl (blank w))

  pub eff-Spells :
      (s : Text) {ts : List Tok}
      → Spells parse_f64 s ts
      → Spells parse_f64 (codes "E! " ++ s) (Tok.sym (codes "E!") ∷ ts)
  unfolding scan word blank_at text_eq
  eff-Spells s w = token (Tok.sym (codes "E!")) 2 refl refl (λ q. cc q) refl refl (blank w)

  pub ref-Spells :
      (c : ℕ) (s : Text) {ts : List Tok}
      → (c == b'&') ≡ false
      → Spells parse_f64 (c ∷ s) ts
      → Spells parse_f64 (b'&' ∷ c ∷ s) (Tok.sym (codes "&") ∷ ts)
  unfolding scan symbol starts_with blank_at
  ref-Spells c s h w =
      let other : (b'&' == c) ≡ false = ground (arith, h) in
      token (Tok.sym (codes "&")) 1 refl refl (λ q. cc q)
        (rw (scan, symbol, starts_with, other) refl) refl w
