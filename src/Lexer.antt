-- ===== src/Lexer.antt =====
-- src/lexer.rs: tokens, and which of them end or start an expression. A text is its bytes in UTF-8,
-- and the value of a decimal literal is its bit pattern.
pub mod Scan
pub mod Run
pub mod Ends
pub mod Spells
pub mod Bare
pub mod Position
pub mod Located
pub mod Offsets
mod Examples
use vibelang.Base.{
  ℕ, suc, ◌-◌, Text, Bool, true, false, not, Option, List, [], ◌∷◌, codes, contains, map, text_eq,
  if◌then◌else◌,
}
use vibelang.Base.Int.{ℤ}
use vibelang.Diag.{Span}

pub data Tok : Type 0 where
  int : ℤ → Tok
  float : ℕ → Tok
  str : Text → Tok
  char : ℕ → Tok
  name : Text → Tok
  ctor : Text → Tok
  kw : Text → Tok
  sym : Text → Tok
  newline : Tok
  eof : Tok

pub record Token : Type 0 where
  pub tok : Tok
  pub span : Span

unfoldable pub is_sym : Text → Token → Bool
is_sym s t = elim t.tok [ sym x ↦ text_eq x s | _ ↦ false ]

unfoldable pub is_kw : Text → Token → Bool
is_kw s t = elim t.tok [ kw x ↦ text_eq x s | _ ↦ false ]

abbrev pub keywords : List Text
keywords = map codes (
    "mod" ∷ "ext" ∷ "exp" ∷ "type" ∷ "ghost" ∷ "let" ∷ "in" ∷ "own" ∷ "ref" ∷ "arena" ∷ "with"
    ∷ "end" ∷ "True" ∷ "False" ∷ [])

abbrev pub symbols : List Text
symbols = map codes (
    "|>" ∷ "<-" ∷ "->" ∷ "==" ∷ "!=" ∷ "<=" ∷ ">=" ∷ "&&" ∷ "||" ∷ "++" ∷ "E!" ∷ ":" ∷ "=" ∷ "?"
    ∷ "|" ∷ "&" ∷ "%" ∷ "{" ∷ "}" ∷ "[" ∷ "]" ∷ "(" ∷ ")" ∷ "," ∷ "." ∷ "\\" ∷ "+" ∷ "-" ∷ "*" ∷ "/"
    ∷ "<" ∷ ">" ∷ "!" ∷ ";" ∷ [])

unfoldable pub ends_expr : Tok → Bool
ends_expr (Tok.int _) = true
ends_expr (Tok.float _) = true
ends_expr (Tok.str _) = true
ends_expr (Tok.char _) = true
ends_expr (Tok.name _) = true
ends_expr (Tok.ctor _) = true
ends_expr (Tok.kw k) = contains (map codes ("end" ∷ "True" ∷ "False" ∷ [])) k
ends_expr (Tok.sym s) = contains (map codes (")" ∷ "]" ∷ "}" ∷ [])) s
ends_expr _ = false

unfoldable pub starts_expr : Tok → Bool
starts_expr (Tok.int _) = true
starts_expr (Tok.float _) = true
starts_expr (Tok.str _) = true
starts_expr (Tok.char _) = true
starts_expr (Tok.name _) = true
starts_expr (Tok.ctor _) = true
starts_expr (Tok.kw k) = not (contains (map codes ("in" ∷ "with" ∷ [])) k)
starts_expr (Tok.sym s) =
    contains (map codes ("(" ∷ "[" ∷ "{" ∷ "?" ∷ "\\" ∷ "&" ∷ "!" ∷ "-" ∷ [])) s
starts_expr Tok.eof = true
starts_expr Tok.newline = true

abbrev pub is_newline : Tok → Bool
is_newline Tok.newline = true
is_newline _ = false

-- `(depth + nesting(&tok)).max(0)`: on ℕ the subtraction stops at 0.
unfoldable pub nest : Tok → ℕ → ℕ
nest (Tok.sym s) depth =
    if contains (map codes ("(" ∷ "[" ∷ "{" ∷ "?" ∷ [])) s
    then suc depth
    else if contains (map codes (")" ∷ "]" ∷ "}" ∷ [])) s
    then depth - 1
    else depth
nest (Tok.kw k) depth = if text_eq k (codes "end") then depth - 1 else depth
nest _ depth = depth
