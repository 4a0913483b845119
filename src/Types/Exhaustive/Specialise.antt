-- ===== src/Types/Exhaustive/Specialise.antt =====
-- src/types.rs, `specialise`: the specialised rows match what is under a value exactly as the rows
-- match the value, and keep the typing.
use vibelang.Base.{
  ℕ, suc, Text, Bool, true, ◌||◌, Option, none, some, [], ◌∷◌, ◌≡◌, refl, sym, ap, ◌∙◌, arith,
  Bool-cases, Option-cases, inl, inr, subst, any, and_true, or_true,
}
use vibelang.Ast.{Pat, Pats}
use vibelang.Types.{T, Ts, Data}
use vibelang.Types.Exhaustive.{
  Head, head_eq, count, append_pats, wilds, Rows, head, specialise_row, specialise, default_rows,
}
use vibelang.Types.Exhaustive.Values.{
  Value, Values, count_values, append_values, matches, matches_all, count_ts, append_ts, splits,
  Fields, bool, ctor, tuple, list, lit, PatTy, PatsTy, ValuesTy,
}
use vibelang.Types.Exhaustive.Columns.{
  head_eq→eq, matches_all-append, count-wilds, matches-no_head, matches-head,
}

module _ (debug : Pat → Text) (d : Data) where
  Fields-unique :
      {t : T} {h : Head} {f g : Ts} → Fields debug d t h f → Fields debug d t h g → f ≡ g
  Fields-unique (bool v b) (bool w c) = refl
  Fields-unique (bool v b) (ctor w k e m n) = absurd (cc)
  Fields-unique (ctor v k e m n) (bool w b) = absurd (cc)
  Fields-unique (ctor v k e m n) (ctor v' k' e' m' n') = cc
  Fields-unique (tuple v e) (tuple w e') = cc
  Fields-unique (list v m) (list w n) = cc
  Fields-unique (lit v) (lit w) = refl

  count-PatsTy : {ps : Pats} {ts : Ts} → PatsTy debug d ps ts → count ps ≡ count_ts ts
  count-PatsTy PatsTy.nil = refl
  count-PatsTy (PatsTy.cons p ps) = ap suc (count-PatsTy ps)

  count_values-ValuesTy :
      {us : Values} {ts : Ts} → ValuesTy debug d us ts → count_values us ≡ count_ts ts
  count_values-ValuesTy ValuesTy.nil = refl
  count_values-ValuesTy (ValuesTy.cons u us) = ap suc (count_values-ValuesTy us)

  PatsTy-append :
      {ps qs : Pats} {ts us : Ts}
      → PatsTy debug d ps ts
      → PatsTy debug d qs us
      → PatsTy debug d (append_pats ps qs) (append_ts ts us)
  PatsTy-append PatsTy.nil q = q
  PatsTy-append (PatsTy.cons p ps) q = PatsTy.cons p (PatsTy-append ps q)

  PatsTy-wilds : (ts : Ts) → PatsTy debug d (wilds (count_ts ts)) ts
  unfolding head
  PatsTy-wilds Ts.nil = PatsTy.nil
  PatsTy-wilds (Ts.cons t ts) = PatsTy.cons (PatTy.any refl) (PatsTy-wilds ts)

  pub ValuesTy-append :
      {vs ws : Values} {ts us : Ts}
      → ValuesTy debug d vs ts
      → ValuesTy debug d ws us
      → ValuesTy debug d (append_values vs ws) (append_ts ts us)
  ValuesTy-append ValuesTy.nil q = q
  ValuesTy-append (ValuesTy.cons v vs) q = ValuesTy.cons v (ValuesTy-append vs q)

  -- Every row is typed.
  abbrev pub RowsTy : Rows → Ts → Type 0
  RowsTy [] ts = Unit
  RowsTy (r ∷ rows) ts = PatsTy debug d r ts × RowsTy rows ts

  abbrev pub some_match : Rows → Values → Bool
  some_match rows vs = any (λ r. matches_all r vs) rows

  pub PatsTy-inv :
      {p : Pat} {r : Pats} {t : T} {ts : Ts}
      → PatsTy debug d (Pats.cons p r) (Ts.cons t ts)
      → PatTy debug d p t × PatsTy debug d r ts
  PatsTy-inv (PatsTy.cons p r) = (p, r)

  -- The types under a pattern whose head is `h`.
  under :
      {p : Pat} {t : T} {h g : Head} {ps : Pats} {fs : Ts}
      → PatTy debug d p t
      → head debug p ≡ some (g, ps)
      → head_eq g h ≡ true
      → Fields debug d t h fs
      → PatsTy debug d ps fs
  under (PatTy.any e) k q f = absurd (cc)
  under {t} {h} {g} {ps} {fs} (PatTy.headed {h = h'} {ps = ps'} {fs = fs'} e f' w) k q f =
      let same : h' ≡ g = cc in
      let here : h' ≡ h = same ∙ head_eq→eq g h q in
      let types : fs' ≡ fs = Fields-unique (subst (λ x. Fields debug d t x fs') here f') f in
      let pats : ps' ≡ ps = cc in
      subst (λ x. PatsTy debug d x fs) pats (subst (PatsTy debug d ps') types w)

  -- One row: its specialisation is typed, and matches only if the row does.
  abbrev RowSpec : Head → Ts → Ts → Value → Values → Values → Pats → Option Pats → Type 0
  RowSpec h fs ts v us vs r none = Unit
  RowSpec h fs ts v us vs r (some r') =
      PatsTy debug d r' (append_ts fs ts)
      × (matches_all r' (append_values us vs) ≡ true → matches_all r (Values.cons v vs) ≡ true)

  or_left : (a b : Bool) → a ≡ true → (a || b) ≡ true
  or_left a b h = ground arith

  or_right : (a b : Bool) → b ≡ true → (a || b) ≡ true
  or_right a b h = ground arith

  matches-cons :
      (p : Pat) (r : Pats) (v : Value) (vs : Values)
      → matches p v ≡ true
      → matches_all r vs ≡ true
      → matches_all (Pats.cons p r) (Values.cons v vs) ≡ true
  unfolding matches
  matches-cons p r v vs h g = rw (h, g)

  -- A value of a type taken apart at its head.
  pub record Split (v : Value) (t : T) : Type 0 where
    pub h : Head
    pub us : Values
    pub fs : Ts
    pub heads : splits v ≡ some (h, us)
    pub field : Fields debug d t h fs
    pub typed : ValuesTy debug d us fs

  module _ (v : Value) (t : T) (s : Split v t) (ts : Ts) (vs : Values) (k : ℕ)
      (arity : count_ts s.fs ≡ k) where
    open s use {h, us, fs, heads, field, typed}

    matches_rest :
        (ps r : Pats)
        → count ps ≡ k
        → matches_all (append_pats ps r) (append_values us vs) ≡ true
        → (matches_all ps us ≡ true) × (matches_all r vs ≡ true)
    matches_rest ps r e m =
        and_true _ _
          (sym (matches_all-append ps r us vs (omega (arith, count_values-ValuesTy typed))) ∙ m)

    specialise_row-RowSpec :
        (p : Pat) (r : Pats)
        → PatTy debug d p t
        → PatsTy debug d r ts
        → RowSpec h fs ts v us vs (Pats.cons p r) (specialise_row h k (head debug p) r)
    unfolding specialise_row
    specialise_row-RowSpec p r pt rt = elim (Option-cases (head debug p)) [
      | inl no_head ↦ rw no_head (
        PatsTy-append (subst (λ n. PatsTy debug d (wilds n) fs) arity (PatsTy-wilds fs)) rt,
        λ m.
            matches-cons p r v vs (matches-no_head debug p v no_head)
              (matches_rest (wilds k) r (count-wilds k) m).1,
      )
      | inr ((g, ps), hp) ↦ elim (Bool-cases (head_eq g h)) [
        | inl same ↦
            let w : PatsTy debug d ps fs = under pt hp same field in
            let hp' : head debug p ≡ some (h, ps) =
              subst (λ x. head debug p ≡ some (x, ps)) (head_eq→eq g h same) hp in
            rw (hp, same)
              (
                PatsTy-append w rt,
                λ m.
                    let (a, b) = matches_rest ps r (count-PatsTy w ∙ arity) m in
                    matches-cons p r v vs (matches-head debug p v hp' heads a) b,
              )
        | inr other ↦ rw (hp, other) tt
      ]
    ]

    push :
        (r : Pats) (rows rest : Rows) (o : Option Pats)
        → RowSpec h fs ts v us vs r o
        → RowsTy rest (append_ts fs ts)
          × (some_match rest (append_values us vs) ≡ true
              → some_match rows (Values.cons v vs) ≡ true)
        → RowsTy (elim o [ none ↦ rest | some r' ↦ r' ∷ rest ]) (append_ts fs ts)
          × (some_match (elim o [ none ↦ rest | some r' ↦ r' ∷ rest ]) (append_values us vs) ≡ true
              → some_match (r ∷ rows) (Values.cons v vs) ≡ true)
    push r rows rest none spec ih = (ih.0, λ m. or_right _ _ (ih.1 m))
    push r rows rest (some r') spec ih = (
      (spec.0, ih.0),
      λ m. elim (or_true (matches_all r' (append_values us vs)) _ m) [
        | inl a ↦ or_left _ _ (spec.1 a)
        | inr b ↦ or_right _ _ (ih.1 b)
      ],
    )

    -- The specialised rows are typed, and match what is under the value and the values behind it
    -- only if the rows match the value and those.
    pub specialise_sound :
        (rows : Rows)
        → RowsTy rows (Ts.cons t ts)
        → RowsTy (specialise debug rows h k) (append_ts fs ts)
          × (some_match (specialise debug rows h k) (append_values us vs) ≡ true
              → some_match rows (Values.cons v vs) ≡ true)
    unfolding specialise
    specialise_sound [] w = (tt, λ m. m)
    specialise_sound (Pats.nil ∷ rows) w = elim w.0 [ ]
    specialise_sound (Pats.cons p r ∷ rows) w =
        push (Pats.cons p r) rows (specialise debug rows h k) (specialise_row h k (head debug p) r)
          (specialise_row-RowSpec p r pt.0 pt.1) (specialise_sound rows w.1)
      where
        pt : PatTy debug d p t × PatsTy debug d r ts
        pt = PatsTy-inv w.0

  pub default_sound :
      (v : Value) (vs : Values) (t : T) (ts : Ts) (rows : Rows)
      → RowsTy rows (Ts.cons t ts)
      → RowsTy (default_rows debug rows) ts
        × (some_match (default_rows debug rows) vs ≡ true
            → some_match rows (Values.cons v vs) ≡ true)
  unfolding default_rows
  default_sound v vs t ts [] w = (tt, λ m. m)
  default_sound v vs t ts (Pats.nil ∷ rows) w = elim w.0 [ ]
  default_sound v vs t ts (Pats.cons p r ∷ rows) w =
      let later = default_sound v vs t ts rows w.1 in
      elim (Option-cases (head debug p)) [
        | inl no_head ↦
            rw (RowsTy, default_rows, no_head)
              (
                ((PatsTy-inv w.0).1, later.0),
                λ m. elim (or_true (matches_all r vs) _ m) [
                  | inl a ↦
                      or_left _ _ (matches-cons p r v vs (matches-no_head debug p v no_head) a)
                  | inr b ↦ or_right _ _ (later.1 b)
                ],
              )
        | inr (g, hp) ↦ rw (RowsTy, default_rows, hp) (later.0, λ m. or_right _ _ (later.1 m))
      ]
