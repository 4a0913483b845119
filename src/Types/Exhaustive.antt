-- ===== src/Types/Exhaustive.antt =====
-- src/types.rs, exhaustiveness: `Head`, `head`, `specialise`, `useful`, `signature` and
-- `check_exhaustiveness`. A row of patterns is a `Pats`; every row is as wide as the question `q`,
-- so the `r[0]` of the source exists. What the derived `Debug` prints for a literal is a parameter.
pub mod Values
pub mod Columns
pub mod Specialise
pub mod Complete
pub mod Sound
pub mod Fuel
pub mod Check
mod Examples
use vibelang.Base.{
  ℕ, zero, suc, ◌+◌, Text, Bool, true, false, not, ◌&&◌, ◌||◌, Option, none, some, List, [], ◌∷◌,
  ◌++◌, map, codes, ◌==◌, any, all, text_eq, if◌then◌else◌,
}
use vibelang.Diag.{Span, Diag, error, with_path}
use vibelang.Ast.{Ty, Tys, Pat, Pats}
use vibelang.Types.{T, CtorInfo, Data}

pub data Head : Type 0 where
  ctor : Text → Head
  tuple : ℕ → Head
  lit : Text → Head
  list : ℕ → Head

unfoldable pub head_eq : Head → Head → Bool
head_eq (Head.ctor c) (Head.ctor d) = text_eq c d
head_eq (Head.tuple m) (Head.tuple n) = m == n
head_eq (Head.lit s) (Head.lit t) = text_eq s t
head_eq (Head.list m) (Head.list n) = m == n
head_eq _ _ = false

abbrev pub count : Pats → ℕ
count Pats.nil = 0
count (Pats.cons p ps) = suc (count ps)

abbrev pub count_tys : Tys → ℕ
count_tys Tys.nil = 0
count_tys (Tys.cons t ts) = suc (count_tys ts)

abbrev pub append_pats : Pats → Pats → Pats
append_pats Pats.nil qs = qs
append_pats (Pats.cons p ps) qs = Pats.cons p (append_pats ps qs)

-- `vec![Pat::Wild; k]`.
abbrev pub wilds : ℕ → Pats
wilds zero = Pats.nil
wilds (suc k) = Pats.cons Pat.wild (wilds k)

abbrev pub bool_name : Bool → Text
bool_name true = codes "True"
bool_name false = codes "False"

abbrev pub Rows : Type 0
Rows = List Pats

-- What a row becomes under `h`, from the head of its first pattern and the rest of it.
pub specialise_row : Head → ℕ → Option (Head × Pats) → Pats → Option Pats
unfolding head_eq
specialise_row h k none r = some (append_pats (wilds k) r)
specialise_row h k (some (rh, ps)) r = if head_eq rh h then some (append_pats ps r) else none

module _ (debug : Pat → Text) where
  -- `head`.
  unfoldable pub head : Pat → Option (Head × Pats)
  head Pat.wild = none
  head (Pat.var _) = none
  head (Pat.bool b) = some (Head.ctor (bool_name b), Pats.nil)
  head (Pat.ctor c ps) = some (Head.ctor c, ps)
  head (Pat.tuple ps) = some (Head.tuple (count ps), ps)
  head (Pat.list ps) = some (Head.list (count ps), ps)
  head (Pat.int n) = some (Head.lit (debug (Pat.int n)), Pats.nil)
  head (Pat.float n) = some (Head.lit (debug (Pat.float n)), Pats.nil)
  head (Pat.str s) = some (Head.lit (debug (Pat.str s)), Pats.nil)
  head (Pat.char c) = some (Head.lit (debug (Pat.char c)), Pats.nil)

  -- `specialise`.
  unfoldable pub specialise : Rows → Head → ℕ → Rows
  unfolding head specialise_row
  specialise [] h k = []
  specialise (Pats.nil ∷ rows) h k = specialise rows h k
  specialise (Pats.cons p r ∷ rows) h k = elim (specialise_row h k (head p) r) [
    | none ↦ specialise rows h k
    | some r' ↦ r' ∷ specialise rows h k
  ]

  -- `rows.iter().filter_map(|r| head(&r[0]).map(|(h, _)| h))`.
  unfoldable pub heads_of : Rows → List Head
  unfolding head
  heads_of [] = []
  heads_of (Pats.nil ∷ rows) = heads_of rows
  heads_of (Pats.cons p r ∷ rows) = elim (head p) [
    | none ↦ heads_of rows
    | some (h, _) ↦ h ∷ heads_of rows
  ]

  -- The rows that match anything in their first column, without it.
  unfoldable pub default_rows : Rows → Rows
  unfolding head
  default_rows [] = []
  default_rows (Pats.nil ∷ rows) = default_rows rows
  default_rows (Pats.cons p r ∷ rows) = elim (head p) [
    | none ↦ r ∷ default_rows rows
    | some _ ↦ default_rows rows
  ]

abbrev pub Signature : Type 0
Signature = List (Head × ℕ)

-- The constructors of one type with their arities; `None` if one is not declared.
unfoldable pub arities : Data → List Text → Option Signature
arities d [] = some []
arities d (v ∷ vs) = elim (d.ctors v) [
  | none ↦ none
  | some info ↦ elim (arities d vs) [
    | none ↦ none
    | some sig ↦ some ((Head.ctor v, count_tys info.args) ∷ sig)
  ]
]

pub bools : Signature
bools = (Head.ctor (codes "True"), 0) ∷ (Head.ctor (codes "False"), 0) ∷ []

abbrev pub is_bool_name : Text → Bool
is_bool_name c = text_eq c (codes "True") || text_eq c (codes "False")

pub declared : Data → Option CtorInfo → Option Signature
unfolding arities
declared d none = none
declared d (some info) = elim (d.variants info.owner) [ none ↦ none | some vs ↦ arities d vs ]

-- `signature`.
unfoldable pub signature : Data → List Head → Option Signature
unfolding declared bools
signature d [] = none
signature d (Head.tuple n ∷ _) = some ((Head.tuple n, n) ∷ [])
signature d (Head.ctor c ∷ _) = if is_bool_name c then some bools else declared d (d.ctors c)
signature d (Head.lit _ ∷ _) = none
signature d (Head.list _ ∷ _) = none

-- `sig.iter().all(|(h, _)| heads.contains(h))`.
unfoldable pub covers : List Head → Signature → Bool
unfolding head_eq
covers heads [] = true
covers heads ((h, _) ∷ sig) = any (λ g. head_eq g h) heads && covers heads sig

-- `iter().any` of a test that may run out of fuel.
pub any_useful : (Head → ℕ → Option Bool) → Signature → Option Bool
any_useful f [] = some false
any_useful f ((h, k) ∷ sig) = elim (f h k) [
  | none ↦ none
  | some true ↦ some true
  | some false ↦ any_useful f sig
]

abbrev pub Question : Type 0
Question = Rows → Pats → Option Bool

module _ (debug : Pat → Text) (d : Data) where
  -- `useful` at a row whose first pattern has no head: `below` asks about specialised rows, and
  -- `rest` is the answer for the default rows.
  pub ask_column : Question → Option Signature → Rows → Pats → Option Bool → Option Bool
  unfolding covers specialise any_useful heads_of
  ask_column below none rows q rest = rest
  ask_column below (some sig) rows q rest =
      if covers (heads_of debug rows) sig
      then any_useful (λ h k. below (specialise debug rows h k) (append_pats (wilds k) q)) sig
      else rest

  pub ask : Question → Option (Head × Pats) → Rows → Pats → Option Bool → Option Bool
  unfolding ask_column signature
  ask below (some (h, ps)) rows q rest =
      below (specialise debug rows h (count ps)) (append_pats ps q)
  ask below none rows q rest = ask_column below (signature d (heads_of debug rows)) rows q rest

  -- `useful`. A specialisation takes one of the fuel, the step to the default rows takes a column.
  pub useful : ℕ → Rows → Pats → Option Bool
  unfolding ask default_rows
  useful n rows Pats.nil = some (elim rows [ [] ↦ true | _ ∷ _ ↦ false ])
  useful zero rows (Pats.cons p q) =
      ask (λ _ _. none) (head debug p) rows q (useful zero (default_rows debug rows) q)
  useful (suc n) rows (Pats.cons p q) =
      ask (useful n) (head debug p) rows q (useful (suc n) (default_rows debug rows) q)
