-- ===== src/Lexer/Run.antt =====
-- src/lexer.rs, `Lexer`, `run` and `lex_full`: the loop over the source, on fuel, with the position
-- and the line as its state.
use vibelang.Base.{
  ℕ, zero, suc, ◌+◌, ◌-◌, Text, Bool, false, not, ◌&&◌, ◌||◌, Option, none, some, List, [], ◌∷◌,
  ◌++◌, ◌==◌, leb, length, reversed, take, drop, count_while, last?, all, if◌then◌else◌,
}
use vibelang.Diag.{Span, Diag, error}
use vibelang.Lexer.{Tok, Token, ends_expr, starts_expr, is_newline, nest}
use vibelang.Lexer.Scan.{Scan, at, scan, took, refused}

pub record Comment : Type 0 where
  pub after : ℕ
  pub own_line : Bool
  pub text : Text

pub record Lexer : Type 0 where
  pub src : Text
  pub file : ℕ
  pub pos : ℕ
  pub line : ℕ
  pub line_start : ℕ
  pub comments : List Comment

-- What is left to read.
abbrev pub rest_of : Lexer → Text
rest_of l = drop l.pos l.src

abbrev pub advance : ℕ → Lexer → Lexer
advance n l = record l { pos = l.pos + n }

-- `span`, of what lies between two positions.
abbrev pub span : Lexer → ℕ → ℕ → Span
span l start end = record {
  file = l.file;
  line = l.line;
  col = start - l.line_start;
  len = end - start;
}

-- The bytes of the last character of a text, which is read backwards, if that is white space in
-- Unicode; 0 if it is not.
unfoldable pub space_bytes : Text → ℕ
space_bytes [] = 0
space_bytes (a ∷ []) = if (leb 9 a && leb a 13) || a == 32 then 1 else 0
space_bytes (a ∷ b ∷ []) =
    if (leb 9 a && leb a 13) || a == 32
    then 1
    else if b == 194 && (a == 133 || a == 160)
    then 2
    else 0
space_bytes (a ∷ b ∷ c ∷ _) =
    if (leb 9 a && leb a 13) || a == 32
    then 1
    else if b == 194 && (a == 133 || a == 160)
    then 2
    else if c == 225 && b == 154 && a == 128
    then 3
    else if c == 226 && b == 128 && (leb a 138 || a == 168 || a == 169 || a == 175)
    then 3
    else if c == 226 && b == 129 && a == 159
    then 3
    else if c == 227 && b == 128 && a == 128
    then 3
    else 0

-- Dropping what is white space at the front of a text that is read backwards; `skip` counts the
-- bytes of a character that is being dropped.
unfoldable pub trim_front : ℕ → Text → Text
unfolding space_bytes
trim_front skip [] = []
trim_front (suc skip) (a ∷ s) = trim_front skip s
trim_front zero (a ∷ s) = elim (space_bytes (a ∷ s)) [ zero ↦ a ∷ s | suc n ↦ trim_front n s ]

-- `trim_end`.
unfoldable pub trim_end : Text → Text
unfolding trim_front
trim_end s = reversed (trim_front 0 (reversed s [])) []

-- `b.is_ascii_whitespace()`.
abbrev is_blank : ℕ → Bool
is_blank c = c == 32 || c == 9 || c == 10 || c == 12 || c == 13

-- `out.iter().filter(|t| t.tok != Tok::Newline).count()`.
unfoldable pub real_tokens : List Token → ℕ
real_tokens [] = 0
real_tokens (t ∷ ts) = (if is_newline t.tok then 0 else 1) + real_tokens ts

-- The bytes of a comment, up to the end of the line.
abbrev pub comment_length : Text → ℕ
comment_length rest = count_while (λ c. not (c == 10)) rest

unfoldable pub comment_at : Lexer → ℕ → Comment
unfolding trim_end
comment_at l after = record {
  after = after;
  own_line = all is_blank (take (l.pos - l.line_start) (drop l.line_start l.src));
  text = trim_end (take (comment_length (rest_of l)) (rest_of l));
}

-- The arms of the inner loop.
pub data Blank : Type 0 where
  space comment other : Blank

unfoldable pub blank_at : Text → Blank
blank_at rest =
    if at 0 rest == 32 || at 0 rest == 9 || at 0 rest == 13
    then Blank.space
    else if at 0 rest == b';' && at 1 rest == b';'
    then Blank.comment
    else Blank.other

-- The inner loop: horizontal white space and comments.
unfoldable pub skip_blank : ℕ → Lexer → ℕ → Option Lexer
unfolding blank_at comment_at
skip_blank zero l after = none
skip_blank (suc f) l after = elim (blank_at (rest_of l)) [
  | space ↦ skip_blank f (advance 1 l) after
  | comment ↦
      skip_blank f
        (record l {
          pos = l.pos + comment_length (rest_of l);
          comments = l.comments ++ comment_at l after ∷ [];
        })
        after
  | other ↦ some l
]

pub data Lexed : Type 0 where
  lexed : List Token → List Comment → Lexed
  failed : Diag → Lexed
  out_of_fuel : Lexed

unfoldable pub last_ends : List Token → Bool
unfolding ends_expr
last_ends out = elim (last? out) [ none ↦ false | some t ↦ ends_expr t.tok ]

-- The tokens after a newline.
unfoldable pub at_newline : Lexer → ℕ → List Token → List Token
unfolding last_ends
at_newline l depth out =
    if depth == 0 && last_ends out
    then out ++ record { tok = Tok.newline; span = span l l.pos l.pos } ∷ []
    else out

abbrev pub next_line : Lexer → Lexer
next_line l = record l { pos = suc l.pos; line = suc l.line; line_start = suc l.pos }

abbrev pub start : Text → ℕ → Lexer
start src file = record { src = src; file = file; pos = 0; line = 1; line_start = 0; comments = [] }

-- `toks.get(i + 1).is_some_and(|t| starts_expr(&t.tok))`.
unfoldable pub next_starts : List Token → Bool
unfolding starts_expr
next_starts [] = false
next_starts (t ∷ ts) = starts_expr t.tok

-- The loop of `lex_full` that drops newlines.
unfoldable pub drop_newlines : List Token → List Token
unfolding next_starts
drop_newlines [] = []
drop_newlines (t ∷ ts) =
    let rest = drop_newlines ts in
    if is_newline t.tok && not (next_starts ts) then rest else t ∷ rest

-- What a scan leads to: the token and the loop after it, or an error.
unfoldable pub read_token : (Lexer → List Token → ℕ → Lexed) → Lexer → List Token → ℕ → Scan → Lexed
read_token next l out depth (took tok n) =
    next (advance n l) (out ++ record { tok = tok; span = span l l.pos (l.pos + n) } ∷ [])
      (nest tok depth)
read_token next l out depth (refused a b code) =
    Lexed.failed (error (span l (l.pos + a) (l.pos + b)) code)

module _ (parse_f64 : Text → ℕ) where
  -- The body of the outer loop after the blanks, and the loop after it.
  unfoldable pub read_one : (Lexer → List Token → ℕ → Lexed) → Lexer → List Token → ℕ → Text → Lexed
  read_one next l out depth [] =
      Lexed.lexed (out ++ record { tok = Tok.eof; span = span l l.pos l.pos } ∷ []) l.comments
  read_one next l out depth (c ∷ rest) =
      if c == 10
      then next (next_line l) (at_newline l depth out) depth
      else read_token next l out depth (scan parse_f64 (c ∷ rest))

  -- `run`.
  unfoldable pub run : ℕ → Lexer → List Token → ℕ → Lexed
  run zero l out depth = Lexed.out_of_fuel
  run (suc f) l out depth = elim (skip_blank (suc (length l.src)) l (real_tokens out)) [
    | none ↦ Lexed.out_of_fuel
    | some l' ↦ read_one (run f) l' out depth (rest_of l')
  ]

  -- `lex_full`, on fuel for one round more than there are bytes.
  unfoldable pub lex_full : Text → ℕ → Lexed
  lex_full src file = elim (run (suc (length src)) (start src file) [] 0) [
    | lexed toks comments ↦ Lexed.lexed (drop_newlines toks) comments
    | failed d ↦ Lexed.failed d
    | out_of_fuel ↦ Lexed.out_of_fuel
  ]
