-- ===== src/Diag/Render.antt =====
-- src/diag.rs: whole diagnostics, with their prose, the table of files, and the three renderings.
pub mod Json
mod Examples
use vibelang.Base.{
  ℕ, zero, suc, ◌+◌, ◌-◌, ◌/◌, ◌%◌, max, Text, Bool, true, false, Option, none, some, List, [], ◌∷◌,
  ◌++◌, codes, ◌==◌, ltb, length, get_elem?, reversed, decimal, if◌then◌else◌,
}
use vibelang.Base.Hex.{hex}
use vibelang.Diag.{Span, Diag, error, with_path}

-- A diagnostic with its message, its counterexample and its repair.
pub record Report : Type 0 where
  pub diag : Diag
  pub msg : Text
  pub witness : Option Text
  pub fix : Option Text

-- `Diag::error`, with the message.
abbrev pub report : Span → Text → Text → Report
report s code msg = record { diag = error s code; msg = msg; witness = none; fix = none }

abbrev pub with_fix : Text → Report → Report
with_fix f r = record r { fix = some f }

abbrev pub with_witness : Text → Report → Report
with_witness w r = record r { witness = some w }

-- `at_path`.
abbrev pub at_path : Text → Diag → Diag
at_path p d = elim d.path [ none ↦ with_path p d | some _ ↦ d ]

pub record Files : Type 0 where
  pub names : List Text
  pub texts : List Text

-- `Files::add`: the files and the number of the new one.
abbrev pub add : Text → Text → Files → Files × ℕ
add name text fs =
    let names = fs.names ++ name ∷ [] in
    (record { names = names; texts = fs.texts ++ text ∷ [] }, length names - 1)

-- A line that is read backwards, without the `\r` of its line end.
abbrev without_cr : Text → Text
without_cr [] = []
without_cr (c ∷ s) = if c == 13 then s else c ∷ s

-- What is left of the last line, if anything is.
abbrev last_line : Text → List Text
last_line [] = []
last_line (c ∷ s) = reversed (c ∷ s) [] ∷ []

-- `str::lines`, with the line so far backwards.
unfoldable pub lines_from : Text → Text → List Text
lines_from acc [] = last_line acc
lines_from acc (c ∷ s) = elim (c == 10) [
  | true ↦ reversed (without_cr acc) [] ∷ lines_from [] s
  | false ↦ lines_from (c ∷ acc) s
]

unfoldable pub or_empty : Option Text → Text
or_empty none = []
or_empty (some s) = s

-- `Files::line`.
unfoldable pub line : Files → Span → Text
unfolding lines_from or_empty
line fs s = elim (get_elem? fs.texts s.file) [
  | none ↦ []
  | some t ↦ or_empty (get_elem? (lines_from [] t) (s.line - 1))
]

-- `Files::name`.
unfoldable pub name : Files → Span → Text
name fs s = elim (get_elem? fs.names s.file) [ none ↦ codes "<input>" | some n ↦ n ]

-- `json_escape`, of a character.
unfoldable pub json_char : ℕ → Text
json_char c =
    if c == b'"'
    then b'\\' ∷ b'"' ∷ []
    else if c == b'\\'
    then b'\\' ∷ b'\\' ∷ []
    else if c == 10
    then b'\\' ∷ b'n' ∷ []
    else if c == 9
    then b'\\' ∷ b't' ∷ []
    else if ltb c 0x20
    then b'\\' ∷ b'u' ∷ hex 4 c
    else c ∷ []

-- `json_escape`.
unfoldable pub json_escape : Text → Text
unfolding json_char
json_escape [] = []
json_escape (c ∷ s) = json_char c ++ json_escape s

-- File, line and column, which counts from 1.
unfoldable pub place : Report → Files → Text
unfolding name
place r fs =
    name fs r.diag.span
    ++ (b':' ∷ (decimal r.diag.span.line ++ (b':' ∷ decimal (r.diag.span.col + 1))))

-- The path of a rendering.
unfoldable pub shown_path : Report → Files → Text
unfolding place
shown_path r fs = elim r.diag.path [ some p ↦ p | none ↦ place r fs ]

-- What a `push_str` of a formatted option adds.
abbrev pub push : Option Text → Text → (Text → Text) → Text → Text
push none before shown after = after
push (some t) before shown after = before ++ (shown t ++ after)

-- `render` with `DiagFormat::Struct`. The two signs are written by their bytes.
unfoldable pub render_struct : Report → Files → Text
unfolding shown_path place
render_struct r fs =
    0xe2
    ∷ 0x9c
    ∷ 0x97
    ∷ b' '
    ∷ (shown_path r fs
        ++ (b' '
            ∷ (r.diag.code
                ++ push r.witness (b' ' ∷ 0xe2 ∷ 0x8a ∷ 0xa8 ∷ b' ' ∷ []) (λ w. w)
                    (10
                      ∷ (codes "  at: "
                          ++ (place r fs
                              ++ (10
                                  ∷ (codes "  msg: "
                                      ++ (r.msg
                                          ++ push r.fix (10 ∷ codes "  fix: ") (λ f. f) [])))))))))

-- An escaped text with its closing quote.
unfoldable pub closed : Text → Text
unfolding json_escape
closed s = json_escape s ++ b'"' ∷ []

-- `render` with `DiagFormat::Json`.
unfoldable pub render_json : Report → Files → Text
unfolding shown_path json_escape closed
render_json r fs =
    codes "{\"path\":\""
    ++ (json_escape (shown_path r fs)
        ++ (codes "\",\"code\":\""
            ++ (json_escape r.diag.code
                ++ (codes "\",\"msg\":\""
                    ++ (json_escape r.msg
                        ++ (codes "\",\"file\":\""
                            ++ (json_escape (name fs r.diag.span)
                                ++ (codes "\",\"line\":"
                                    ++ (decimal r.diag.span.line
                                        ++ (codes ",\"col\":"
                                            ++ (decimal (r.diag.span.col + 1)
                                                ++ push r.witness (codes ",\"witness\":\"") closed (
                                                    push r.fix (codes ",\"fix\":\"") closed
                                                      (b'}' ∷ [])))))))))))))

abbrev repeat : ℕ → ℕ → Text
repeat c zero = []
repeat c (suc n) = c ∷ repeat c n

-- `render` with `DiagFormat::Prose`.
unfoldable pub render_prose : Report → Files → Text
unfolding line place
render_prose r fs =
    codes "error["
    ++ (r.diag.code
        ++ (codes "]: "
            ++ (r.msg
                ++ (10
                    ∷ (codes "  --> "
                        ++ (place r fs
                            ++ (10
                                ∷ (codes "   |"
                                    ++ (10
                                        ∷ (codes "   | "
                                            ++ (line fs r.diag.span
                                                ++ (10
                                                    ∷ (codes "   | "
                                                        ++ (repeat b' ' r.diag.span.col
                                                            ++ (repeat b'^' (max r.diag.span.len 1)
                                                            ++ push r.witness
                                                            (10 ∷ codes "   = counterexample: ")
                                                            (λ w. w)
                                                            (push r.fix (10 ∷ codes "   = fix: ")
                                                            (λ f. f) []))))))))))))))))

pub data DiagFormat : Type 0 where
  prose structured json : DiagFormat

-- `render`.
unfoldable pub render : Report → Files → DiagFormat → Text
unfolding render_struct render_json render_prose
render r fs structured = render_struct r fs
render r fs json = render_json r fs
render r fs prose = render_prose r fs
