-- ===== src/Types/Exhaustive/Fuel.antt =====
-- src/types.rs, `useful`: the recursion ends. A specialisation drops a pattern node, so as much fuel
-- as the rows have nodes is enough.
use vibelang.Base.{
  ℕ, zero, suc, ◌+◌, ◌≤◌, ◌<◌, Text, Bool, true, false, Option, none, some, List, [], ◌∷◌, ◌≡◌,
  refl, sym, arith, Bool-cases, Option-cases, inl, inr, In, here, there, In-cons, subst, any,
  and_true,
}
use vibelang.Ast.{Pat, Pats}
use vibelang.Types.{Data}
use vibelang.Types.Exhaustive.{
  Head, head_eq, append_pats, wilds, Rows, head, heads_of, default_rows, specialise_row, specialise,
  Signature, signature, covers, any_useful, Question, ask_column, ask, useful,
}
use vibelang.Types.Exhaustive.Columns.{append_pats-wilds}

-- The nodes of a pattern; what matches everything has none.
unfoldable mutual
  pub nodes : Pat → ℕ
  nodes Pat.wild = 0
  nodes (Pat.var _) = 0
  nodes (Pat.ctor _ ps) = suc (nodes_all ps)
  nodes (Pat.tuple ps) = suc (nodes_all ps)
  nodes (Pat.list ps) = suc (nodes_all ps)
  nodes _ = 1

  pub nodes_all : Pats → ℕ
  nodes_all Pats.nil = 0
  nodes_all (Pats.cons p ps) = nodes p + nodes_all ps

unfoldable pub nodes_rows : Rows → ℕ
unfolding nodes
nodes_rows [] = 0
nodes_rows (r ∷ rows) = nodes_all r + nodes_rows rows

nodes_all-append : (ps qs : Pats) → nodes_all (append_pats ps qs) ≡ nodes_all ps + nodes_all qs
unfolding nodes
nodes_all-append Pats.nil qs = omega arith
nodes_all-append (Pats.cons p ps) qs = omega (arith, nodes_all-append ps qs)

nodes_all-wilds : (k : ℕ) → nodes_all (wilds k) ≡ 0
unfolding nodes
nodes_all-wilds zero = refl
nodes_all-wilds (suc k) = omega (arith, nodes_all-wilds k)

row_nodes : Option Pats → ℕ
row_nodes none = 0
row_nodes (some r) = nodes_all r

nodes_rows-push :
    (o : Option Pats) (rest : Rows)
    → nodes_rows (elim o [ none ↦ rest | some r ↦ r ∷ rest ]) ≡ row_nodes o + nodes_rows rest
unfolding row_nodes nodes_rows
nodes_rows-push none rest = omega arith
nodes_rows-push (some r) rest = refl

module _ (debug : Pat → Text) where
  nodes-head :
      (p : Pat) {h : Head} {ps : Pats} → head debug p ≡ some (h, ps) → nodes p ≡ suc (nodes_all ps)
  unfolding nodes head
  nodes-head Pat.wild e = absurd (cc e)
  nodes-head p e = ground arith

  -- A row that is kept under its own head loses that node.
  row_nodes-same :
      (p : Pat) (r : Pats) (h g : Head) (ps : Pats) (k : ℕ)
      → head debug p ≡ some (g, ps)
      → row_nodes (specialise_row h k (head debug p) r) < nodes p + nodes_all r
  unfolding specialise_row row_nodes
  row_nodes-same p r h g ps k e = elim (Bool-cases (head_eq g h)) [
    | inl same ↦ rw (e, same) (omega (arith, nodes_all-append ps r, nodes-head p e))
    | inr other ↦ rw (e, other) (omega (arith, nodes-head p e))
  ]

  row_nodes-any :
      (p : Pat) (r : Pats) (h : Head) (k : ℕ)
      → head debug p ≡ none
      → row_nodes (specialise_row h k (head debug p) r) ≡ nodes_all r
  unfolding specialise_row row_nodes
  row_nodes-any p r h k e = rw e (omega (arith, nodes_all-append (wilds k) r, nodes_all-wilds k))

  row_nodes-le :
      (p : Pat) (r : Pats) (h : Head) (k : ℕ)
      → row_nodes (specialise_row h k (head debug p) r) ≤ nodes p + nodes_all r
  row_nodes-le p r h k = elim (Option-cases (head debug p)) [
    | inl no_head ↦ omega (arith, row_nodes-any p r h k no_head)
    | inr ((g, ps), e) ↦ omega (arith, row_nodes-same p r h g ps k e)
  ]

  nodes-specialise :
      (rows : Rows) (h : Head) (k : ℕ) → nodes_rows (specialise debug rows h k) ≤ nodes_rows rows
  unfolding specialise nodes_rows
  nodes-specialise [] h k = omega arith
  nodes-specialise (Pats.nil ∷ rows) h k = omega (arith, nodes-specialise rows h k)
  nodes-specialise (Pats.cons p r ∷ rows) h k = omega (
    arith,
    nodes_rows-push (specialise_row h k (head debug p) r) (specialise debug rows h k),
    row_nodes-le p r h k,
    nodes-specialise rows h k,
  )

  -- Specialising by a head of the column drops a node.
  nodes-specialise_lt :
      (rows : Rows) (h : Head) (k : ℕ)
      → any (λ g. head_eq g h) (heads_of debug rows) ≡ true
      → nodes_rows (specialise debug rows h k) < nodes_rows rows
  unfolding specialise nodes_rows heads_of
  nodes-specialise_lt [] h k e = absurd (cc e)
  nodes-specialise_lt (Pats.nil ∷ rows) h k e = omega (arith, nodes-specialise_lt rows h k e)
  nodes-specialise_lt (Pats.cons p r ∷ rows) h k e = elim (Option-cases (head debug p)) [
    | inl no_head ↦ omega (
      arith,
      nodes_rows-push (specialise_row h k (head debug p) r) (specialise debug rows h k),
      row_nodes-le p r h k,
      nodes-specialise_lt rows h k (rw (heads_of, no_head) at e),
    )
    | inr ((g, ps), hp) ↦ omega (
      arith,
      nodes_rows-push (specialise_row h k (head debug p) r) (specialise debug rows h k),
      row_nodes-same p r h g ps k hp,
      nodes-specialise rows h k,
    )
  ]

  nodes-default_rows : (rows : Rows) → nodes_rows (default_rows debug rows) ≤ nodes_rows rows
  unfolding default_rows nodes_rows
  nodes-default_rows [] = omega arith
  nodes-default_rows (Pats.nil ∷ rows) = omega (arith, nodes-default_rows rows)
  nodes-default_rows (Pats.cons p r ∷ rows) = elim (Option-cases (head debug p)) [
    | inl no_head ↦ rw (nodes_rows, default_rows, no_head) (omega (arith, nodes-default_rows rows))
    | inr (g, hp) ↦ rw (nodes_rows, default_rows, hp) (omega (arith, nodes-default_rows rows))
  ]

-- The question has an answer.
abbrev Answers : Option Bool → Type 0
Answers o = (b : Bool) × (o ≡ some b)

any_step :
    (o rest : Option Bool)
    → Answers o
    → Answers rest
    → Answers (elim o [ none ↦ none | some true ↦ some true | some false ↦ rest ])
any_step none rest (b, e) r = absurd (cc e)
any_step (some true) rest a r = (true, refl)
any_step (some false) rest a r = r

any_useful-Answers :
    (f : Head → ℕ → Option Bool) (sig : Signature)
    → ((h : Head) (k : ℕ) → In (h, k) sig → Answers (f h k))
    → Answers (any_useful f sig)
unfolding any_useful
any_useful-Answers f [] all' = (false, refl)
any_useful-Answers f ((h, k) ∷ sig) all' =
    any_step (f h k) (any_useful f sig) (all' h k here)
      (any_useful-Answers f sig (λ g j m. all' g j (there m)))

covers-In :
    (heads : List Head) (sig : Signature) {h : Head} {k : ℕ}
    → covers heads sig ≡ true
    → In (h, k) sig
    → any (λ g. head_eq g h) heads ≡ true
unfolding covers
covers-In heads [] e m = elim m [ ]
covers-In heads ((g, j) ∷ sig) {h} e m =
    let (now, later) = and_true (any (λ f. head_eq f g) heads) (covers heads sig) e in
    elim (In-cons m) [
      | inl same ↦ subst (λ (x : Head × ℕ). any (λ f. head_eq f x.0) heads ≡ true) (sym same) now
      | inr n ↦ covers-In heads sig later n
    ]

module _ (debug : Pat → Text) (d : Data) where
  column-Answers :
      (below : Question) (rows : Rows) (q : Pats) (rest : Option Bool)
      → ((h : Head) (k : ℕ)
          → nodes_rows (specialise debug rows h k) < nodes_rows rows
          → Answers (below (specialise debug rows h k) (append_pats (wilds k) q)))
      → Answers rest
      → Answers (ask_column debug d below (signature d (heads_of debug rows)) rows q rest)
  unfolding ask_column
  column-Answers below rows q rest smaller r =
      elim (Option-cases (signature d (heads_of debug rows))) [
        | inl no_sig ↦ rw (no_sig, ask_column) r
        | inr (sig, s) ↦ elim (Bool-cases (covers (heads_of debug rows) sig)) [
          | inl all' ↦
              rw (s, ask_column, all')
                (any_useful-Answers _ sig (λ h k m. smaller h k (
                  nodes-specialise_lt debug rows h k (covers-In (heads_of debug rows) sig all' m))))
          | inr partial ↦ rw (s, ask_column, partial) r
        ]
      ]

  -- Whether a row of wildcards is useful is decided on as much fuel as the rows have nodes, or more.
  pub useful_total :
      (n w : ℕ) (rows : Rows)
      → nodes_rows rows ≤ n
      → (b : Bool) × (useful debug d n rows (wilds w) ≡ some b)
  unfolding useful ask head
  useful_total n zero rows le = (_, refl)
  useful_total zero (suc w) rows le =
      column-Answers (λ _ _. none) rows (wilds w) _ (λ h k lt. absurd (omega arith))
        (useful_total zero w (default_rows debug rows)
          (omega (arith, nodes-default_rows debug rows)))
  useful_total (suc n) (suc w) rows le =
      column-Answers (useful debug d n) rows (wilds w) _
        (λ h k lt.
          rw append_pats-wilds (useful_total n (k + w) (specialise debug rows h k) (omega arith)))
        (useful_total (suc n) w (default_rows debug rows)
          (omega (arith, nodes-default_rows debug rows)))
