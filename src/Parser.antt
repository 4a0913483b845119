-- ===== src/Parser.antt =====
-- src/parser.rs: the parser's state and its helpers on tokens. A diagnostic keeps its span and code.
pub mod Ahead
pub mod Spelling
pub mod Types
use vibelang.Base.{
  ℕ, zero, suc, ◌+◌, ◌-◌, min, Text, Bool, true, false, Option, none, some, List, [], ◌∷◌, ◌++◌,
  codes, ◌==◌, length, get_or, if◌then◌else◌,
}
use vibelang.Diag.{Span, Diag, error}
use vibelang.Lexer.{Tok, Token, ctor, is_sym, is_newline}

pub record Parser : Type 0 where
  pub toks : List Token
  pub i : ℕ
  pub depth : ℕ
  pub home : Text

-- `P`, with the parser after it, and with what happens when the fuel runs out.
pub data Parsed {ℓ} (A : Type ℓ) : Type ℓ where
  ok : A → Parser → Parsed A
  err : Diag → Parsed A
  out_of_fuel : Parsed A

-- `?`.
abbrev pub and_then {ℓ} : {A B : Type ℓ} → Parsed A → (A → Parser → Parsed B) → Parsed B
and_then (ok a p) next = next a p
and_then (err d) next = err d
and_then out_of_fuel next = out_of_fuel

-- What stands at the end of every sequence of tokens.
abbrev pub end_token : Token
end_token = record { tok = Tok.eof; span = record { file = 0; line = 0; col = 0; len = 0 } }

-- `cur`. The lexer never gives an empty sequence.
unfoldable pub cur : Parser → Token
cur p = get_or p.toks (min p.i (length p.toks - 1)) end_token

abbrev pub forward : ℕ → Parser → Parser
forward n p = record p { i = p.i + n }

-- The loop of `sync`, at most once for every token: the last one is never a newline.
unfoldable pub skip : ℕ → Parser → Parser
unfolding cur
skip zero p = p
skip (suc f) p = elim (is_newline (cur p).tok) [ true ↦ skip f (forward 1 p) | false ↦ p ]

-- `sync`.
unfoldable pub sync : Parser → Parser
unfolding skip
sync p = if p.depth == 0 then p else skip (length p.toks) p

-- `eat_sym`, at a parser that is in step.
abbrev pub eat : Text → Parser → Bool × Parser
eat s p = if is_sym s (cur p) then (true, forward 1 p) else (false, p)

unfoldable pub eat_sym : Text → Parser → Bool × Parser
unfolding sync cur is_sym
eat_sym s p = eat s (sync p)

-- `err`.
abbrev pub refuse {ℓ} : {A : Type ℓ} → Text → Parser → Parsed A
refuse code p = err (error (cur p).span code)

abbrev pub expected : Span → Bool × Parser → Parsed Span
expected sp (true, p) = ok sp p
expected sp (false, p) = refuse (codes "parse.expected") p

-- `expect_sym`.
unfoldable pub expect_sym : Text → Parser → Parsed Span
unfolding eat_sym cur
expect_sym s p = expected (cur p).span (eat_sym s p)

-- The qualifier of a name that `n` starts: the parser stands after `n`.
abbrev pub qualified_name : Text → Parser → Text × Parser
qualified_name n p =
    if is_sym (codes ".") (cur p)
    then (elim (get_or p.toks (p.i + 1) end_token).tok [
      | ctor c ↦ (n ++ b'.' ∷ c, forward 2 p)
      | _ ↦ (n, p)
    ])
    else (n, p)

-- `ctor_name`.
unfoldable pub ctor_name : Parser → Text × Parser
unfolding cur is_sym
ctor_name p = elim (cur p).tok [ ctor n ↦ qualified_name n (forward 1 p) | _ ↦ ([], p) ]
