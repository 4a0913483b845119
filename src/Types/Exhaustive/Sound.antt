-- ===== src/Types/Exhaustive/Sound.antt =====
-- src/types.rs, `useful` and `check_exhaustiveness`: a match in which `_` is not useful covers every
-- value of its scrutinee's type.
use vibelang.Base.{
  ℕ, zero, suc, Text, Bool, true, false, Option, none, some, [], ◌∷◌, ◌≡◌, refl, ap, ◌∙◌, arith,
  Bool-cases, Option-cases, inl, inr, ◌+◌,
}
use vibelang.Ast.{Pat, Pats}
use vibelang.Types.{T, Ts, Data}
use vibelang.Types.Exhaustive.{
  append_pats, wilds, Rows, head, heads_of, default_rows, specialise, Signature, signature, covers,
  any_useful, Question, ask_column, ask, useful,
}
use vibelang.Types.Exhaustive.Values.{Value, Values, matches, count_ts, ValueTy, ValuesTy}
use vibelang.Types.Exhaustive.Columns.{append_pats-wilds}
use vibelang.Types.Exhaustive.Specialise.{
  RowsTy, some_match, ValuesTy-append, specialise_sound, default_sound,
}
use vibelang.Types.Exhaustive.Complete.{
  first_head, signature_complete, any_useful-false, value-Split, signature-cons,
  signature-not_other, count-append_ts,
}

module _ (debug : Pat → Text) (d : Data) where
  -- A question whose answer false means that the rows match every typed row of values.
  abbrev IsSound : Question → Type 0
  IsSound below =
      (w : ℕ) (rows : Rows) (vs : Values) (ts : Ts)
      → RowsTy debug d rows ts
      → ValuesTy debug d vs ts
      → count_ts ts ≡ w
      → below rows (wilds w) ≡ some false
      → some_match debug d rows vs ≡ true

  module _ (below : Question) (below_sound : IsSound below) where
    -- The column has a complete signature, so the value has one of its heads.
    split_column :
        (w : ℕ) (rows : Rows) (v : Value) (vs : Values) (t : T) (ts : Ts) (sig : Signature)
        → RowsTy debug d rows (Ts.cons t ts)
        → ValueTy debug d v t
        → ValuesTy debug d vs ts
        → count_ts ts ≡ w
        → signature d (heads_of debug rows) ≡ some sig
        → any_useful
            (λ h k. below (specialise debug rows h k) (append_pats (wilds k) (wilds w)))
            sig
          ≡ some false
        → some_match debug d rows (Values.cons v vs) ≡ true
    split_column w rows v vs t ts sig rt vt vst e s u =
        let (h, hs, first) = signature-cons debug d (heads_of debug rows) s in
        let (fs, f) = first_head debug d rows t ts rt first in
        let s' : signature d (h ∷ hs) ≡ some sig = rw first at s in
        let sp = value-Split debug d vt (signature-not_other debug d hs f s') in
        let k = count_ts sp.fs in
        let here' =
          any_useful-false debug d _ sig u (signature_complete debug d hs f sp.field s') in
        let below' : below (specialise debug rows sp.h k) (wilds (k + w)) ≡ some false =
          rw (append_pats-wilds k w) at here' in
        let (rt', back) = specialise_sound debug d v t sp ts vs k refl rows rt in
        back (
          below_sound (k + w) _ _ _ rt' (ValuesTy-append debug d sp.typed vst)
            (count-append_ts debug d sp.fs ts ∙ ap (λ (m : ℕ). k + m) e) below')

    column_sound :
        (w : ℕ) (rows : Rows) (v : Value) (vs : Values) (t : T) (ts : Ts) (rest : Option Bool)
        → RowsTy debug d rows (Ts.cons t ts)
        → ValueTy debug d v t
        → ValuesTy debug d vs ts
        → count_ts ts ≡ w
        → (rest ≡ some false → some_match debug d (default_rows debug rows) vs ≡ true)
        → ask_column debug d below (signature d (heads_of debug rows)) rows (wilds w) rest
          ≡ some false
        → some_match debug d rows (Values.cons v vs) ≡ true
    unfolding ask_column
    column_sound w rows v vs t ts rest rt vt vst e dflt u =
        let by_default =
          λ (r : rest ≡ some false). (default_sound debug d v vs t ts rows rt).1 (dflt r) in
        elim (Option-cases (signature d (heads_of debug rows))) [
          | inl no_sig ↦ by_default (rw (no_sig, ask_column) at u)
          | inr (sig, s) ↦ elim (Bool-cases (covers (heads_of debug rows) sig)) [
            | inl all_heads ↦
                split_column w rows v vs t ts sig rt vt vst e s (rw (s, ask_column, all_heads) at u)
            | inr partial ↦ by_default (rw (s, ask_column, partial) at u)
          ]
        ]

  row_inv :
      {v : Value} {vs : Values} {t : T} {ts : Ts}
      → ValuesTy debug d (Values.cons v vs) (Ts.cons t ts)
      → ValueTy debug d v t × ValuesTy debug d vs ts
  row_inv (ValuesTy.cons v vs) = (v, vs)

  no_columns :
      (rows : Rows) (vs : Values) (ts : Ts)
      → RowsTy debug d rows ts
      → ValuesTy debug d vs ts
      → count_ts ts ≡ 0
      → some (elim rows [ [] ↦ true | _ ∷ _ ↦ false ]) ≡ some false
      → some_match debug d rows vs ≡ true
  unfolding matches
  no_columns [] vs ts rt vt e u = absurd (cc u)
  no_columns (r ∷ rows) vs (Ts.cons t ts) rt vt e u = absurd (omega arith)
  no_columns (r ∷ rows) (Values.cons v vs) Ts.nil rt vt e u = elim vt [ ]
  no_columns (Pats.cons p r ∷ rows) Values.nil Ts.nil rt vt e u = elim rt.0 [ ]
  no_columns (Pats.nil ∷ rows) Values.nil Ts.nil rt vt e u = refl

  -- If a row of wildcards, as wide as the types, is not useful after rows that have these types, then
  -- every row of values of these types matches one of the rows.
  pub useful_sound :
      (n w : ℕ) (rows : Rows) (vs : Values) (ts : Ts)
      → RowsTy debug d rows ts
      → ValuesTy debug d vs ts
      → count_ts ts ≡ w
      → useful debug d n rows (wilds w) ≡ some false
      → some_match debug d rows vs ≡ true
  unfolding useful ask head
  useful_sound n zero rows vs ts rt vt e u = no_columns rows vs ts rt vt e u
  useful_sound zero (suc w) rows (Values.cons v vs) (Ts.cons t ts) rt vt e u =
      column_sound (λ _ _. none) (λ w rows vs ts rt vt e u. absurd (cc u)) w rows v vs t ts _ rt
        (row_inv vt).0 (row_inv vt).1 (omega arith)
        (λ r.
          useful_sound zero w _ vs ts (default_sound debug d v vs t ts rows rt).0 (row_inv vt).1
            (omega arith) r)
        u
  useful_sound (suc n) (suc w) rows (Values.cons v vs) (Ts.cons t ts) rt vt e u =
      column_sound (useful debug d n) (useful_sound n) w rows v vs t ts _ rt (row_inv vt).0
        (row_inv vt).1 (omega arith)
        (λ r.
          useful_sound (suc n) w _ vs ts (default_sound debug d v vs t ts rows rt).0 (row_inv vt).1
            (omega arith) r)
        u
  useful_sound zero (suc w) rows Values.nil (Ts.cons t ts) rt vt e u = elim vt [ ]
  useful_sound (suc n) (suc w) rows Values.nil (Ts.cons t ts) rt vt e u = elim vt [ ]
  useful_sound zero (suc w) rows vs Ts.nil rt vt e u = absurd (omega arith)
  useful_sound (suc n) (suc w) rows vs Ts.nil rt vt e u = absurd (omega arith)
