-- ===== src/View/Literals.antt =====
-- src/view.rs with src/lexer.rs: a literal that `view` spells is read back.
use vibelang.Base.{
  ℕ, suc, ◌+◌, Text, Bool, false, [], ◌∷◌, ◌++◌, ◌≡◌, refl, sym, ap, subst, ◌∙◌, arith, ◌==◌,
  length, length-append, Bool-cases, inl, inr, append_assoc, append-nil, some, true, codes, ltb,
  if◌then◌else◌,
}
use vibelang.Lexer.{Tok}
use vibelang.Lexer.Scan.{Scan, took, escaped, string_loop, string, character, in_string, InString}
use vibelang.View.{utf8, esc, esc_byte, esc_all, quote, char_literal}

-- What `esc` makes of a byte: an escape that the lexer knows, or the byte.
data Spelling (c : ℕ) : Text → Type 0 where
  by_escape : {e : ℕ} → escaped e ≡ some c → Spelling c (b'\\' ∷ e ∷ [])
  as_is : in_string c ≡ InString.plain → (c == b'\\') ≡ false → Spelling c (c ∷ [])

esc-Spelling : (c : ℕ) → ltb c 0x80 ≡ true → Spelling c (esc c)
unfolding esc utf8 escaped in_string
esc-Spelling c ascii = elim (Bool-cases (c == 10)) [
  | inl y ↦ rw y (by_escape (ground (arith, y)))
  | inr n1 ↦ elim (Bool-cases (c == 9)) [
    | inl y ↦ rw (n1, y) (by_escape (ground (arith, y)))
    | inr n2 ↦ elim (Bool-cases (c == 13)) [
      | inl y ↦ rw (n1, n2, y) (by_escape (ground (arith, y)))
      | inr n3 ↦ elim (Bool-cases (c == 0)) [
        | inl y ↦ rw (n1, n2, n3, y) (by_escape (ground (arith, y)))
        | inr n4 ↦ elim (Bool-cases (c == b'\\')) [
          | inl y ↦ rw (n1, n2, n3, n4, y) (by_escape (ground (arith, y)))
          | inr n5 ↦ elim (Bool-cases (c == b'"')) [
            | inl y ↦ rw (n1, n2, n3, n4, n5, y) (by_escape (ground (arith, y)))
            | inr n6 ↦
                rw (n1, n2, n3, n4, n5, n6, ascii) (as_is (rw (in_string, n1, n4, n5, n6) refl) n5)
          ]
        ]
      ]
    ]
  ]
]

esc_byte-Spelling : (b : ℕ) → Spelling b (esc_byte b)
unfolding esc_byte in_string
esc_byte-Spelling b = elim (Bool-cases (ltb b 0x80)) [
  | inl ascii ↦
      subst (Spelling b) (sym (ap (λ t. if t then esc b else b ∷ []) ascii)) (esc-Spelling b ascii)
  | inr other ↦ rw other (as_is (ground (arith, other)) (ground (arith, other)))
]

string_loop-step :
    {c : ℕ} {w : Text} (d : ℕ) (r : Text) (k : ℕ) (s : Text)
    → Spelling c w
    → string_loop (w ++ d ∷ r) k s ≡ string_loop (d ∷ r) (k + length w) (s ++ c ∷ [])
unfolding string_loop in_string
string_loop-step {c} d r k s (by_escape {e} h) =
    rw (string_loop, h)
      (ap (λ (j : ℕ). string_loop (d ∷ r) j (s ++ c ∷ [])) {x = k + 2} (omega arith))
string_loop-step {c} d r k s (as_is plain _) =
    rw (string_loop, plain)
      (ap (λ (j : ℕ). string_loop (d ∷ r) j (s ++ c ∷ [])) {x = suc k} (omega arith))

-- The same for what stands before the closing quote.
string_loop-before :
    {c : ℕ} {w : Text} (xs r : Text) (k : ℕ) (s : Text)
    → Spelling c w
    → string_loop (w ++ (xs ++ b'"' ∷ r)) k s
      ≡ string_loop (xs ++ b'"' ∷ r) (k + length w) (s ++ c ∷ [])
string_loop-before [] r k s sp = string_loop-step b'"' r k s sp
string_loop-before (x ∷ xs) r k s sp = string_loop-step x (xs ++ b'"' ∷ r) k s sp

string_loop-end :
    (r : Text) (k : ℕ) (s : Text) → string_loop (b'"' ∷ r) k s ≡ took (Tok.str s) (suc k)
unfolding string_loop in_string
string_loop-end [] k s = refl
string_loop-end (d ∷ r) k s = refl

string_loop-esc_all :
    (t r : Text) (k : ℕ) (s : Text)
    → string_loop (esc_all t ++ b'"' ∷ r) k s
      ≡ took (Tok.str (s ++ t)) (suc (k + length (esc_all t)))
unfolding esc_all
string_loop-esc_all [] r k s =
    string_loop-end r k s
    ∙ ap (λ (j : ℕ). took (Tok.str s) j) {x = suc k} (omega arith)
    ∙ ap (λ (u : Text). took (Tok.str u) (suc (k + 0))) (sym (append-nil s))
string_loop-esc_all (c ∷ t) r k s =
    ap (λ (u : Text). string_loop u k s) (append_assoc (esc_byte c) (esc_all t) (b'"' ∷ r))
    ∙ string_loop-before (esc_all t) r k s (esc_byte-Spelling c)
    ∙ string_loop-esc_all t r (k + length (esc_byte c)) (s ++ c ∷ [])
    ∙ ap (λ (u : Text). took (Tok.str u) (suc (k + length (esc_byte c) + length (esc_all t))))
        (append_assoc s (c ∷ []) t)
    ∙ ap (λ (j : ℕ). took (Tok.str (s ++ c ∷ t)) j)
        {x = suc (k + length (esc_byte c) + length (esc_all t))}
        (omega (arith, length-append (esc_byte c) (esc_all t)))

-- A string literal as `view` spells it is read back as the same bytes, whatever follows, and all of
-- the literal is taken.
pub string-quote : (s rest : Text) → string (quote s ++ rest) ≡ took (Tok.str s) (length (quote s))
unfolding string quote
string-quote s rest =
    ap (λ (u : Text). string_loop u 1 []) (append_assoc (esc_all s) (b'"' ∷ []) rest)
    ∙ string_loop-esc_all s rest 1 []
    ∙ ap (λ (j : ℕ). took (Tok.str s) j) {x = suc (1 + length (esc_all s))}
        (omega (arith, length-append (esc_all s) (b'"' ∷ [])))

-- What the lexer makes of the literal of a character: the character if it is ASCII, and otherwise a
-- refusal behind the first of its bytes.
abbrev pub char_read : ℕ → Bool → Scan
char_read c ascii =
    if ascii
    then took (Tok.char c) (length (char_literal c))
    else Scan.refused 0 2 (codes "lex.char")

spelled :
    {c : ℕ} {w : Text} (rest : Text)
    → Spelling c w
    → character (b'\'' ∷ (w ++ b'\'' ∷ []) ++ rest)
      ≡ took (Tok.char c) (length (b'\'' ∷ (w ++ b'\'' ∷ [])))
unfolding character
spelled rest (by_escape {e} h) = rw h refl
spelled rest (as_is _ h) = rw h refl

-- A character of more than one byte is spelled as its bytes, and its first two are no backslash and no
-- quote.
data IsWide : Text → Type 0 where
  wide : {a b : ℕ} {r : Text} → (a == b'\\') ≡ false → (b == b'\'') ≡ false → IsWide (a ∷ b ∷ r)

utf8-IsWide : (c : ℕ) → ltb c 0x80 ≡ false → IsWide (utf8 c)
unfolding utf8
utf8-IsWide c other = elim (Bool-cases (ltb c 0x800)) [
  | inl two ↦ rw (other, two) (wide (ground arith) (ground arith))
  | inr more ↦ elim (Bool-cases (ltb c 0x10000)) [
    | inl three ↦ rw (other, more, three) (wide (ground arith) (ground arith))
    | inr four ↦ rw (other, more, four) (wide (ground arith) (ground arith))
  ]
]

esc-wide : (c : ℕ) → ltb c 0x80 ≡ false → esc c ≡ utf8 c
unfolding esc
esc-wide c other = ground (arith, other)

refused_wide :
    {w : Text} (rest : Text)
    → IsWide w
    → character (b'\'' ∷ (w ++ b'\'' ∷ []) ++ rest) ≡ Scan.refused 0 2 (codes "lex.char")
unfolding character
refused_wide rest (wide a b) = rw (a, b) refl

-- The literal of a character as `view` spells it, whatever follows, is read back as the character and
-- taken whole if the character is ASCII, and is refused with `lex.char` if it is not.
pub character-char_literal :
    (c : ℕ) (rest : Text) → character (char_literal c ++ rest) ≡ char_read c (ltb c 0x80)
unfolding char_literal
character-char_literal c rest = elim (Bool-cases (ltb c 0x80)) [
  | inl ascii ↦ spelled rest (esc-Spelling c ascii) ∙ sym (ap (char_read c) ascii)
  | inr other ↦
      ap (λ w. character (b'\'' ∷ (w ++ b'\'' ∷ []) ++ rest)) (esc-wide c other)
      ∙ refused_wide rest (utf8-IsWide c other)
      ∙ sym (ap (char_read c) other)
]
