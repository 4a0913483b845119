-- ===== src/Lib.antt =====
-- Vibelang: the passes of its compiler that decide what a program may do, modelled from
-- src/*.rs, with what makes each of them correct.
--
-- The compiler reads modules (src/lexer.rs, src/parser.rs), flattens them into one `Module`
-- (src/load.rs), infers types (src/infer.rs on src/types.rs), checks ownership, termination and
-- refinements (src/own.rs, src/total.rs, src/refine.rs) and prints C (src/codegen.rs). Every pass
-- works on the tree of src/ast.rs and adds the diagnostics of src/diag.rs; a program without
-- diagnostics is compiled. This library has the tree and the passes that decide by themselves:
--
--   Base        booleans, lists, texts (lists of bytes) and integers over the native ℕ
--   Diag        src/diag.rs: `Span` and `Diag`; Render has the three renderings and a reader of JSON
--   Ast         src/ast.rs: the tree; Fold is recursion by way of `children`, Names the accessors
--   Types       src/types.rs: `T` and the tables; Exhaustive has the usefulness of patterns, Unify
--               has `unify`, `bind_var` and `default_numerics`, Distance has `edit_distance`
--               and `suggest`, Scheme has `generalise`
--   Total       src/total.rs: Lin has linear measures, Calls the calls in a body, Check the two
--               passes, Show the printer that keys atoms, Components Tarjan's algorithm
--   Escape      src/escape.rs: `releasable`
--   Lexer       src/lexer.rs: the tokens; Scan has the scanners of one token, Run the loop and
--               `lex_full`, Bare literals of a newline without an escape, Located and Offsets what spans
--               mean to src/patch.rs
--   Patch       src/patch.rs: `nodes`, `apply` and `hash`; Deps has `deps`
--   Parser      src/parser.rs: its state and helpers; Types has `ty`, `ty_app` and `type_atom`
--   View        src/view.rs: the spelling of literals and of types
--
-- A function of the source is a definition of the same name. A `Vec` is a list, a hash map or set
-- is an association list or its lookup, and an early return or a `?` is an alternative. An `i128`
-- is an integer with its bounds checked at every operation: `none` in Total is the panic that an
-- overflow is under overflow checks; a build without them wraps, and no theorem is about it.
-- `offset` of src/patch.rs wraps at line 0, which no token has. What the derived `Debug` prints is a
-- parameter, as are the foreign symbols of a module (`is_ext`).
--
-- Loops run on fuel. `useful` takes one of it at each specialisation, and a question of wildcards
-- needs as much as the rows have nodes, which is what `check_exhaustiveness` gives. The loop of
-- `releasable` has one round more than there are functions, since a round that goes on taints one of
-- them. `resolve` follows at most as many bindings as there are variables, since in a well-formed
-- substitution (`IsTriangular`) every binding lowers a rank. `unify` has its fuel as an argument:
-- each call below another binds a variable first or is about a smaller type. The loop of the lexer has
-- one round more than the source has bytes, and so has the inner loop over blanks: a round reads one.
-- The parser of types takes fuel for each call and each round of a loop; `need` is enough for a type.
-- The work list of `call_components` has two rounds for each function, one for each call and one more.
--
-- A measure of Total is read with every name worth what it is worth where the call stands; the
-- passes of src/total.rs do not look at binders, and neither does this reading.
--
-- Not modelled: the prose that the passes give their diagnostics and the naming of missing
-- patterns, I/O (src/main.rs and the files that src/load.rs reads), the C that src/codegen.rs
-- prints and its runtime, the SMT conditions of src/refine.rs, and, so far, the parser and the
-- printer of src/view.rs beyond types and literals, inference and ownership. A text is its bytes:
-- that a slice of src/patch.rs starts and ends between characters is not part of the model. What
-- Rust's parser makes of a decimal literal is a parameter (`parse_f64`).
pub mod Base
pub mod Diag
pub mod Ast
pub mod Types
pub mod Total
pub mod Escape
pub mod Lexer
pub mod Parser
pub mod Patch
pub mod View
