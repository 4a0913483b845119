-- ===== src/Patch.antt =====
-- src/patch.rs: the nodes of a module as byte ranges of its source, and replacing one.
pub mod Deps
pub mod Trims
pub mod Slices
pub mod Nodes
pub mod Hash
pub mod Apply
mod Examples
use Prim.Native.Nat.{bit_xor}
use vibelang.Base.{
  ℕ, zero, suc, ◌+◌, ◌-◌, ◌*◌, ◌/◌, ◌%◌, ◌^◌, Text, Bool, true, false, not, ◌&&◌, ◌||◌, Option,
  none, some, List, [], ◌∷◌, ◌++◌, codes, ◌==◌, ltb, leb, length, reversed, get_or, get_elem?, take,
  drop, count_while, map, find, text_eq, if◌then◌else◌,
}
use vibelang.Base.Hex.{hex}
use vibelang.Diag.{Span}
use vibelang.Ast.{FunDecl, TypeDecl, ExtBlock, Decl, Module, type_decl, fun_decl, ext, exp}
use vibelang.Ast.Names.{path}
use vibelang.Lexer.Run.{trim_end}

pub record Node : Type 0 where
  pub path : Text
  pub start : ℕ
  pub end : ℕ

-- `Node::text`.
abbrev pub text : Node → Text → Text
text n src = take (n.end - n.start) (drop n.start src)

-- The loop of `hash`: FNV-1a in 64 bits.
unfoldable pub fnv : ℕ → Text → ℕ
fnv h [] = h
fnv h (b ∷ s) = fnv (bit_xor h b * 0x100000001b3 % 2 ^ 64) s

-- `hash`.
unfoldable pub hash : Text → Text
unfolding fnv hex
hash s = hex 16 (fnv 0xcbf29ce484222325 s)

-- `line_starts`, from position `i` on.
unfoldable pub starts_after : ℕ → Text → List ℕ
starts_after i [] = i ∷ []
starts_after i (c ∷ s) = let rest = starts_after (suc i) s in if c == 10 then suc i ∷ rest else rest

unfoldable pub line_starts : Text → List ℕ
unfolding starts_after
line_starts src = 0 ∷ starts_after 0 src

-- The entry of a line, which counts from 1. There is none for line 0, where `line - 1` wraps.
unfoldable pub line_start : List ℕ → ℕ → Option ℕ
line_start starts zero = none
line_start starts (suc k) = get_elem? starts k

-- `offset`.
unfoldable pub offset : List ℕ → Span → ℕ
unfolding line_start
offset starts s = elim (line_start starts s.line) [ none ↦ 0 | some b ↦ b + s.col ]

-- The loop of `decl_end`.
unfoldable pub before_newlines : Text → ℕ → ℕ
before_newlines src zero = 0
before_newlines src (suc n) =
    let rest = before_newlines src n in if get_or src n 0 == 10 then rest else suc n

-- Where the next declaration starts, or the source ends.
unfoldable pub next_start : Text → List ℕ → Option ℕ → ℕ
unfolding line_start
next_start src starts none = length src
next_start src starts (some l) = elim (line_start starts l) [ none ↦ length src | some b ↦ b ]

-- `decl_end`.
unfoldable pub decl_end : Text → List ℕ → Option ℕ → ℕ
unfolding before_newlines next_start
decl_end src starts next = before_newlines src (next_start src starts next)

-- `decl_span`.
unfoldable pub decl_span : Decl → Span
decl_span (type_decl t) = t.span
decl_span (fun_decl f) = f.span
decl_span (ext e) = e.span
decl_span (exp _ s) = s

-- A bare `=` at position `i`: `before` is the byte before it, or 0.
abbrev bare_equals : ℕ → Text → Bool
bare_equals before s =
    get_or s 0 0 == b'='
    && not (get_or s 1 0 == b'=')
    && not (before == b'<' || before == b'>' || before == b'!' || before == b'=')

unfoldable pub find_equals : ℕ → ℕ → Text → Option ℕ
find_equals i before [] = none
find_equals i before (c ∷ s) =
    let later = find_equals (suc i) c s in if bare_equals before (c ∷ s) then some i else later

abbrev is_gap : ℕ → Bool
is_gap c = c == 32 || c == 9

-- `split_head`.
unfoldable pub split_head : Text → ℕ → ℕ → Option (ℕ × ℕ)
unfolding find_equals trim_end
split_head src start end =
    let seg = take (end - start) (drop start src) in
    elim (find_equals 0 0 seg) [
      | none ↦ none
      | some i ↦ some (
        start + length (trim_end (take i seg)),
        start + i + 1 + count_while is_gap (drop (suc i) seg),
      )
    ]

-- The text backwards, without the `.h` that it ends in, as often as it does.
drop_suffix : Text → Text
drop_suffix [] = []
drop_suffix (c ∷ []) = c ∷ []
drop_suffix (c ∷ d ∷ s) =
    let rest = drop_suffix s in if c == b'h' && d == b'.' then rest else c ∷ d ∷ s

-- `ext_key`.
unfoldable pub ext_key : Text → Text
unfolding drop_suffix
ext_key header =
    map (λ c. if c == b'/' || c == b'.' then b'_' else c)
      (reversed (drop_suffix (reversed header [])) [])

-- The path of a declaration.
unfoldable pub base_path : Text → Decl → Text
unfolding path ext_key
base_path m (type_decl t) = path t.home t.name
base_path m (fun_decl f) = path f.home f.name
base_path m (ext e) = m ++ (codes ".ext." ++ ext_key e.header)
base_path m (exp _ _) = m ++ codes ".exp"

-- The signature and the body of a function.
abbrev pub parts : Text → ℕ → ℕ → Option (ℕ × ℕ) → List Node
parts base start end none = []
parts base start end (some (sig_end, body)) =
    record { path = base ++ codes ".sig"; start = start; end = sig_end }
    ∷ record { path = base ++ codes ".body"; start = body; end = end }
    ∷ []

abbrev pub is_fun : Decl → Bool
is_fun (fun_decl _) = true
is_fun _ = false

-- The body of the loop of `nodes`, with the line of the next declaration.
unfoldable pub decl_nodes : Text → Text → Decl → Option ℕ → List Node
unfolding offset line_starts decl_end decl_span base_path split_head
decl_nodes m src d next =
    let start = offset (line_starts src) (decl_span d) in
    let end = decl_end src (line_starts src) next in
    let base = base_path m d in
    if leb end start
    then []
    else (if is_fun d then parts base start end (split_head src start end) else [])
      ++ record { path = base; start = start; end = end } ∷ []

next_line_of : List Decl → Option ℕ
unfolding decl_span
next_line_of [] = none
next_line_of (d ∷ ds) = some (decl_span d).line

unfoldable pub nodes_from : Text → Text → List Decl → List Node
unfolding decl_nodes next_line_of
nodes_from m src [] = []
nodes_from m src (d ∷ ds) = decl_nodes m src d (next_line_of ds) ++ nodes_from m src ds

-- `nodes`.
unfoldable pub nodes : Module → Text → List Node
unfolding nodes_from
nodes m src = nodes_from m.name src m.decls

-- `find`.
unfoldable pub find_node : List Node → Text → Option Node
find_node ns p = find (λ n. text_eq n.path p) ns

unfoldable pub drop_newline : Text → Text
drop_newline [] = []
drop_newline (c ∷ s) = if c == 10 then drop_newline s else c ∷ s

-- `new.trim_end_matches('\n')`.
unfoldable pub without_newlines : Text → Text
unfolding drop_newline
without_newlines new = reversed (drop_newline (reversed new [])) []

-- `apply`.
unfoldable pub apply : Text → Node → Text → Text
unfolding without_newlines
apply src n new = take n.start src ++ (without_newlines new ++ drop n.end src)
