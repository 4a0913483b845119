-- ===== src/Lexer/Scan.antt =====
-- src/lexer.rs, the scanners: each reads one token off the bytes that are left and says how many of
-- them it took. What Rust's parser makes of a decimal literal is a parameter.
pub mod Words
mod Strings
pub mod Extent
use vibelang.Base.{
  ℕ, zero, suc, ◌+◌, ◌*◌, ◌-◌, ◌^◌, Text, String, Bool, true, false, not, ◌&&◌, ◌||◌, Option, none,
  some, List, [], ◌∷◌, ◌++◌, codes, ◌==◌, leb, length, get_or, take, drop, count_while, keep, find,
  contains, text_eq, is_digit, if◌then◌else◌,
}
use vibelang.Base.Int.{pos}
use vibelang.Lexer.{Tok, keywords, symbols}

-- A token with its length, or an error from one offset up to another.
pub data Scan : Type 0 where
  took : Tok → ℕ → Scan
  refused : ℕ → ℕ → Text → Scan

-- `peek` and `at`.
abbrev pub at : ℕ → Text → ℕ
at i rest = get_or rest i 0

abbrev pub is_upper : ℕ → Bool
is_upper c = leb b'A' c && leb c b'Z'

abbrev pub is_lower : ℕ → Bool
is_lower c = leb b'a' c && leb c b'z'

abbrev pub is_alpha : ℕ → Bool
is_alpha c = is_upper c || is_lower c

abbrev pub in_number : ℕ → Bool
in_number c = is_digit c || c == b'_'

abbrev pub in_word : ℕ → Bool
in_word c = is_alpha c || is_digit c || c == b'_'

-- `text.parse::<i128>()` of digits.
unfoldable pub digits_value : ℕ → Text → ℕ
digits_value acc [] = acc
digits_value acc (c ∷ s) = digits_value (acc * 10 + (c - b'0')) s

abbrev pub without_underscores : Text → Text
without_underscores s = keep (λ c. not (c == b'_')) s

pub int_token : ℕ → ℕ → Scan
int_token value n =
    if leb value (2 ^ 64 - 1)
    then Scan.took (Tok.int (pos value)) n
    else Scan.refused 0 n (codes "lex.int")

module _ (parse_f64 : Text → ℕ) where
  -- `number`.
  unfoldable pub number : Text → Scan
  unfolding digits_value int_token
  number rest =
      let n = count_while in_number rest in
      let after = drop n rest in
      let m = n + suc (count_while in_number (drop 1 after)) in
      if at 0 after == b'.' && is_digit (at 1 after)
      then Scan.took (Tok.float (parse_f64 (without_underscores (take m rest)))) m
      else int_token (digits_value 0 (without_underscores (take n rest))) n

-- `escape`, after the backslash.
unfoldable pub escaped : ℕ → Option ℕ
escaped c =
    if c == b'n'
    then some 10
    else if c == b't'
    then some 9
    else if c == b'r'
    then some 13
    else if c == b'0'
    then some 0
    else if c == b'\\' || c == b'"' || c == b'\''
    then some c
    else none

-- The arms of the loop of `string`.
pub data InString : Type 0 where
  quote backslash stop plain : InString

unfoldable pub in_string : ℕ → InString
in_string c =
    if c == b'"'
    then InString.quote
    else if c == b'\\'
    then InString.backslash
    else if c == 0 || c == 10
    then InString.stop
    else InString.plain

-- The loop of `string`: `k` bytes are read, and `s` is what they stand for.
unfoldable pub string_loop : Text → ℕ → Text → Scan
unfolding in_string escaped
string_loop [] k s = Scan.refused 0 k (codes "lex.string")
string_loop (c ∷ []) k s = elim (in_string c) [
  | quote ↦ Scan.took (Tok.str s) (suc k)
  | backslash ↦ Scan.refused k (k + 2) (codes "lex.escape")
  | stop ↦ Scan.refused 0 k (codes "lex.string")
  | plain ↦ Scan.refused 0 (suc k) (codes "lex.string")
]
string_loop (c ∷ e ∷ rest) k s = elim (in_string c) [
  | quote ↦ Scan.took (Tok.str s) (suc k)
  | backslash ↦ elim (escaped e) [
    | none ↦ Scan.refused k (k + 2) (codes "lex.escape")
    | some x ↦ string_loop rest (k + 2) (s ++ x ∷ [])
  ]
  | stop ↦ Scan.refused 0 k (codes "lex.string")
  | plain ↦ string_loop (e ∷ rest) (suc k) (s ++ c ∷ [])
]

-- `string`.
unfoldable pub string : Text → Scan
unfolding string_loop
string rest = string_loop (drop 1 rest) 1 []

closing : ℕ → ℕ → Text → Scan
closing c n rest =
    if at n rest == b'\''
    then Scan.took (Tok.char c) (suc n)
    else Scan.refused 0 n (codes "lex.char")

-- `character`.
unfoldable pub character : Text → Scan
unfolding escaped closing
character rest =
    if at 1 rest == b'\\'
    then elim (escaped (at 2 rest)) [
      | none ↦ Scan.refused 1 3 (codes "lex.escape")
      | some c ↦ closing c 3 rest
    ]
    else closing (at 1 rest) 2 rest

abbrev pub word_token : Text → Tok
word_token text =
    if contains keywords text
    then Tok.kw text
    else if is_upper (at 0 text)
    then Tok.ctor text
    else Tok.name text

-- `word`.
unfoldable pub word : Text → Scan
word rest =
    let n = count_while in_word rest in
    let text = take n rest in
    if text_eq text (codes "E") && at n rest == b'!'
    then Scan.took (Tok.sym (codes "E!")) (suc n)
    else Scan.took (word_token text) n

-- `starts_with`.
unfoldable pub starts_with : Text → Text → Bool
starts_with [] rest = true
starts_with (c ∷ s) [] = false
starts_with (c ∷ s) (d ∷ rest) = c == d && starts_with s rest

-- `symbol`.
unfoldable pub symbol : Text → Scan
unfolding starts_with
symbol rest = elim (find (λ s. starts_with s rest) symbols) [
  | none ↦ Scan.refused 0 1 (codes "lex.char")
  | some s ↦ Scan.took (Tok.sym s) (length s)
]

-- The chain of tests in `run` on the first byte.
unfoldable pub scan : (Text → ℕ) → Text → Scan
unfolding number string character word symbol
scan parse_f64 rest =
    let c = at 0 rest in
    if is_digit c
    then number parse_f64 rest
    else if c == b'"'
    then string rest
    else if c == b'\''
    then character rest
    else if is_alpha c || c == b'_'
    then word rest
    else symbol rest
