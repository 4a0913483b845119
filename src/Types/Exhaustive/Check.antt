-- ===== src/Types/Exhaustive/Check.antt =====
-- src/types.rs, `check_exhaustiveness`: the matches that inference recorded, each asked whether `_`
-- is useful after its arms. The naming of what is missing is not modelled.
use vibelang.Base.{
  Text, Bool, true, false, Option, none, some, List, [], ◌∷◌, ◌++◌, codes, ◌≡◌, refl, sym, ◌∙◌,
  arith, In, In-cons, any, subst, inl, inr,
}
use native.Mathlib.Nat.{le_refl}
use vibelang.Diag.{Span, Diag, error, with_path}
use vibelang.Ast.{Pat, Pats}
use vibelang.Types.{T, Ts, Data}
use vibelang.Types.Exhaustive.{Rows, wilds, useful}
use vibelang.Types.Exhaustive.Values.{Value, Values, matches, PatTy, PatsTy, ValueTy, ValuesTy}
use vibelang.Types.Exhaustive.Specialise.{RowsTy, some_match}
use vibelang.Types.Exhaustive.Sound.{useful_sound}
use vibelang.Types.Exhaustive.Fuel.{nodes_rows, useful_total}

-- An entry of `pending_matches`.
pub record Pending : Type 0 where
  pub span : Span
  pub scrut : T
  pub pats : List Pat
  pub path : Text

-- `pats.iter().map(|p| vec![p.clone()])`.
unfoldable pub one_column : List Pat → Rows
one_column [] = []
one_column (p ∷ ps) = Pats.cons p Pats.nil ∷ one_column ps

module _ (debug : Pat → Text) (d : Data) where
  -- `self.useful(&rows, &[Pat::Wild])`, on enough fuel.
  unfoldable pub wild_useful : List Pat → Option Bool
  unfolding useful one_column nodes_rows
  wild_useful pats = useful debug d (nodes_rows (one_column pats)) (one_column pats) (wilds 1)

  abbrev report : Pending → Bool → List Diag
  report m false = []
  report m true =
      with_path (m.path ++ codes ".match") (error m.span (codes "match.nonexhaustive")) ∷ []

  -- `check_exhaustiveness`: the errors that it adds.
  unfoldable pub check_exhaustiveness : List Pending → Option (List Diag)
  unfolding wild_useful
  check_exhaustiveness [] = some []
  check_exhaustiveness (m ∷ ms) = elim (wild_useful m.pats) [
    | none ↦ none
    | some b ↦ elim (check_exhaustiveness ms) [ none ↦ none | some ds ↦ some (report m b ++ ds) ]
  ]

  -- `check_exhaustiveness` ends on any recorded matches: its fuel is enough.
  pub check_exhaustiveness-total :
      (ms : List Pending) → (ds : List Diag) × (check_exhaustiveness ms ≡ some ds)
  unfolding check_exhaustiveness
  check_exhaustiveness-total [] = ([], refl)
  check_exhaustiveness-total (m ∷ ms) =
      let (b, e) = useful_total debug d _ 1 (one_column m.pats) (le_refl _) in
      let (ds, f) = check_exhaustiveness-total ms in
      (report m b ++ ds, rw (check_exhaustiveness, wild_useful, e, f))

  -- Every pattern has the type of the scrutinee.
  abbrev pub AllPatTy : List Pat → T → Type 0
  AllPatTy [] t = Unit
  AllPatTy (p ∷ ps) t = PatTy debug d p t × AllPatTy ps t

  one_column-RowsTy :
      (ps : List Pat) (t : T) → AllPatTy ps t → RowsTy debug d (one_column ps) (Ts.cons t Ts.nil)
  unfolding one_column
  one_column-RowsTy [] t h = tt
  one_column-RowsTy (p ∷ ps) t h = (PatsTy.cons h.0 PatsTy.nil, one_column-RowsTy ps t h.1)

  one_column-match :
      (ps : List Pat) (v : Value)
      → some_match debug d (one_column ps) (Values.cons v Values.nil) ≡ any (λ p. matches p v) ps
  unfolding one_column matches
  one_column-match [] v = refl
  one_column-match (p ∷ ps) v = ground (arith, one_column-match ps v)

  no_report :
      (k : Pending) (o : Option Bool) (r : Option (List Diag))
      → elim o [ none ↦ none | some b ↦ elim r [ none ↦ none | some ds ↦ some (report k b ++ ds) ] ]
        ≡ some []
      → (o ≡ some false) × (r ≡ some [])
  no_report k none r e = absurd (cc e)
  no_report k (some b) none e = absurd (cc e)
  no_report k (some true) (some ds) e = absurd (cc e)
  no_report k (some false) (some ds) e = (refl, e)

  nothing_missing :
      (ms : List Pending) (m : Pending)
      → check_exhaustiveness ms ≡ some []
      → In m ms
      → wild_useful m.pats ≡ some false
  unfolding check_exhaustiveness
  nothing_missing [] m e n = elim n [ ]
  nothing_missing (k ∷ ms) m e n =
      let (now, later) = no_report k (wild_useful k.pats) (check_exhaustiveness ms) e in
      elim (In-cons n) [
        | inl same ↦ subst (λ (x : Pending). wild_useful x.pats ≡ some false) (sym same) now
        | inr n' ↦ nothing_missing ms m later n'
      ]

  -- If `check_exhaustiveness` reports no match, and the patterns of a recorded match have the type of
  -- its scrutinee, then every value of that type is matched by one of them.
  pub check_exhaustiveness-covers :
      (ms : List Pending) (m : Pending) (v : Value)
      → check_exhaustiveness ms ≡ some []
      → In m ms
      → AllPatTy m.pats m.scrut
      → ValueTy debug d v m.scrut
      → any (λ p. matches p v) m.pats ≡ true
  unfolding wild_useful
  check_exhaustiveness-covers ms m v e n pt vt =
      sym (one_column-match m.pats v)
      ∙ useful_sound debug d _ 1 (one_column m.pats) (Values.cons v Values.nil)
          (Ts.cons m.scrut Ts.nil) (one_column-RowsTy m.pats m.scrut pt)
          (ValuesTy.cons vt ValuesTy.nil) refl (nothing_missing ms m e n)
