-- ===== src/Types/Exhaustive/Complete.antt =====
-- src/types.rs, `signature`: a head of a value of the column's type is one of the heads that it lists.
use vibelang.Base.{
  ℕ, suc, Text, Bool, true, false, Option, none, some, List, [], ◌∷◌, codes, text_eq, text_eq→eq,
  contains, ◌≡◌, refl, sym, ap, arith, Option-cases, inl, inr, In, here, there, In-cons, ◌+◌, ◌≢◌,
  subst, or_true,
}
use vibelang.Ast.{Tys, Pat, Pats}
use vibelang.Types.{T, Ts, CtorInfo, Data}
use vibelang.Types.Exhaustive.{
  Head, count_tys, is_bool_name, Rows, head, heads_of, Signature, arities, bools, declared,
  signature, any_useful,
}
use vibelang.Types.Exhaustive.Values.{
  Value, View, instantiate_all, view, count_ts, append_ts, Fields, bool, ctor, tuple, list, lit,
  PatTy, ValueTy, con_view,
}
use vibelang.Types.Exhaustive.Specialise.{RowsTy, PatsTy-inv, Split}

module _ (debug : Pat → Text) (d : Data) where
  PatTy-head :
      {p : Pat} {t : T} {h : Head} {ps : Pats}
      → PatTy debug d p t
      → head debug p ≡ some (h, ps)
      → (fs : Ts) × Fields debug d t h fs
  PatTy-head (PatTy.any n) k = absurd cc
  PatTy-head {t} {h} (PatTy.headed {h = g} {fs = fs} e f w) k =
      let same : g ≡ h = cc in (fs, subst (λ x. Fields debug d t x fs) same f)

  -- The first head of a column belongs to the column's type.
  pub first_head :
      (rows : Rows) (t : T) (ts : Ts) {h : Head} {hs : List Head}
      → RowsTy debug d rows (Ts.cons t ts)
      → heads_of debug rows ≡ h ∷ hs
      → (fs : Ts) × Fields debug d t h fs
  unfolding heads_of
  first_head [] t ts w e = absurd (cc e)
  first_head (Pats.nil ∷ rows) t ts w e = elim w.0 [ ]
  first_head (Pats.cons p r ∷ rows) t ts {h} w e = elim (Option-cases (head debug p)) [
    | inl no_head ↦ first_head rows t ts w.1 (rw (heads_of, no_head) at e)
    | inr ((g, ps), hp) ↦
        let (fs, f) = PatTy-head (PatsTy-inv debug d w.0).0 hp in
        let same : g ≡ h = cc (rw (heads_of, hp) at e) in
        (fs, subst (λ x. Fields debug d t x fs) same f)
  ]

  view-variants :
      (t : T) {owner : Text} {vs : List Text} {as' : Ts}
      → view d t ≡ View.variants owner vs as'
      → d.variants owner ≡ some vs
  unfolding view con_view
  view-variants (T.con n ts) h = ground arith
  view-variants t h = absurd (cc h)

  arities-In :
      (vs : List Text) (c : Text) {info : CtorInfo} {sig : Signature}
      → arities d vs ≡ some sig
      → contains vs c ≡ true
      → d.ctors c ≡ some info
      → In (Head.ctor c, count_tys info.args) sig
  unfolding arities contains
  arities-In [] c e h k = absurd (cc h)
  arities-In (v ∷ vs) c {info} {sig} e h k = elim (Option-cases (d.ctors v)) [
    | inl no_info ↦ absurd (cc (rw (arities, no_info) at e))
    | inr (info', ki) ↦ elim (Option-cases (arities d vs)) [
      | inl no_rest ↦ absurd (cc (rw (arities, ki, no_rest) at e))
      | inr (sig', ks) ↦
          let whole : (Head.ctor v, count_tys info'.args) ∷ sig' ≡ sig =
            cc (rw (arities, ki, ks) at e) in
          subst (In (Head.ctor c, count_tys info.args)) whole (elim (or_true (text_eq v c) _ h) [
            | inl same ↦
                let name : v ≡ c = text_eq→eq v c same in
                let infos : info' ≡ info = cc in
                let entry : ◌≡◌ {A = Head × ℕ} (Head.ctor v, count_tys info'.args)
                    (Head.ctor c, count_tys info.args) =
                  cc in
                subst (λ x. In x ((Head.ctor v, count_tys info'.args) ∷ sig')) entry here
            | inr later ↦ there (arities-In vs c ks later k)
          ])
    ]
  ]

  count-instantiate_all :
      (qs : List Text) (as' : Ts) (ts : Tys) → count_ts (instantiate_all qs as' ts) ≡ count_tys ts
  unfolding instantiate_all
  count-instantiate_all qs as' Tys.nil = refl
  count-instantiate_all qs as' (Tys.cons t ts) = ap suc (count-instantiate_all qs as' ts)

  bools-In : (c : Text) → is_bool_name c ≡ true → In (Head.ctor c, 0) bools
  unfolding bools
  bools-In c b = elim (or_true (text_eq c (codes "True")) _ b) [
    | inl t ↦ subst (λ x. In (Head.ctor x, 0) bools) (sym (text_eq→eq c _ t)) here
    | inr f ↦ subst (λ x. In (Head.ctor x, 0) bools) (sym (text_eq→eq c _ f)) (there here)
  ]

  bools_complete :
      {t : T} {h : Head} {fs : Ts}
      → view d t ≡ View.bools
      → Fields debug d t h fs
      → In (h, count_ts fs) bools
  bools_complete v (bool {c} w b) = bools-In c b
  bools_complete v (ctor w k o m n) = absurd cc
  bools_complete v (tuple w x) = absurd cc
  bools_complete v (list w m) = absurd cc
  bools_complete v (lit w) = absurd cc

  variants_complete :
      {t : T} {h : Head} {fs : Ts} {owner : Text} {vs : List Text} {as' : Ts} {sig : Signature}
      → view d t ≡ View.variants owner vs as'
      → arities d vs ≡ some sig
      → Fields debug d t h fs
      → In (h, count_ts fs) sig
  variants_complete v e (bool w b) = absurd cc
  variants_complete {vs} {as'} {sig} v e (ctor {c} {vs = ws} {as' = bs} {info} w k o m n) =
      let same : ws ≡ vs = cc in
      rw (count-instantiate_all info.params bs info.args) (arities-In vs c e (rw same at m) k)
  variants_complete v e (tuple w x) = absurd cc
  variants_complete v e (list w m) = absurd cc
  variants_complete v e (lit w) = absurd cc

  tuple_complete :
      {t : T} {h : Head} {fs ts : Ts}
      → view d t ≡ View.tuples ts
      → Fields debug d t h fs
      → In {A = Head × ℕ} (h, count_ts fs) ((Head.tuple (count_ts ts), count_ts ts) ∷ [])
  tuple_complete v (bool w b) = absurd cc
  tuple_complete v (ctor w k o m n) = absurd cc
  tuple_complete {ts} v (tuple {n} {ts = us} w x) = let same : us ≡ ts = cc in rw (← x, same) here
  tuple_complete v (list w m) = absurd cc
  tuple_complete v (lit w) = absurd cc

  -- A signature that a column's first head has holds every head of the column's type.
  pub signature_complete :
      {t : T} {g h : Head} {fs fs' : Ts} (hs : List Head) {sig : Signature}
      → Fields debug d t g fs
      → Fields debug d t h fs'
      → signature d (g ∷ hs) ≡ some sig
      → In (h, count_ts fs') sig
  unfolding signature declared bools
  signature_complete hs {sig} (bool v b) f e =
      let same : bools ≡ sig = cc (rw (signature, b) at e) in subst (In _) same (bools_complete v f)
  signature_complete hs (ctor {owner} {vs} {info} v k o m n) f e =
      variants_complete v (rw (signature, n, k, declared, o, view-variants _ v) at e) f
  signature_complete hs {sig} (tuple {n} {ts} v x) f e =
      let same : ◌≡◌ {A = Signature} ((Head.tuple (count_ts ts), count_ts ts) ∷ []) sig = cc in
      subst (In _) same (tuple_complete v f)
  signature_complete hs (list v m) f e = absurd (cc e)
  signature_complete hs (lit v) f e = absurd (cc e)

  -- The answer to a question about specialised rows is false for each head of the signature.
  pub any_useful-false :
      (f : Head → ℕ → Option Bool) (sig : Signature) {h : Head} {k : ℕ}
      → any_useful f sig ≡ some false
      → In (h, k) sig
      → f h k ≡ some false
  unfolding any_useful
  any_useful-false f [] e m = elim m [ ]
  any_useful-false f ((g, j) ∷ sig) {h} {k} e m = elim (In-cons m) [
    | inl same ↦
        let now : f g j ≡ some false = any_head (f g j) e in
        subst (λ (x : Head × ℕ). f x.0 x.1 ≡ some false) (sym same) now
    | inr n ↦ any_useful-false f sig (any_tail (f g j) e) n
  ]
    where
      any_head :
          (o : Option Bool)
          → elim o [ none ↦ none | some true ↦ some true | some false ↦ any_useful f sig ]
            ≡ some false
          → o ≡ some false
      any_head none e = absurd (cc e)
      any_head (some true) e = absurd (cc e)
      any_head (some false) e = refl

      any_tail :
          (o : Option Bool)
          → elim o [ none ↦ none | some true ↦ some true | some false ↦ any_useful f sig ]
            ≡ some false
          → any_useful f sig ≡ some false
      any_tail none e = absurd (cc e)
      any_tail (some true) e = absurd (cc e)
      any_tail (some false) e = e

  pub value-Split :
      {v : Value} {t : T} → ValueTy debug d v t → view d t ≢ View.other → Split debug d v t
  value-Split (ValueTy.atom n o) not_other = absurd (not_other o)
  value-Split (ValueTy.split e f w) not_other = record {
    h = _;
    us = _;
    fs = _;
    heads = e;
    field = f;
    typed = w;
  }

  pub signature-cons :
      (hs : List Head) {sig : Signature}
      → signature d hs ≡ some sig
      → (h : Head) × (hs' : List Head) × (hs ≡ h ∷ hs')
  unfolding signature
  signature-cons [] e = absurd (cc e)
  signature-cons (h ∷ hs) e = (h, hs, refl)

  pub signature-not_other :
      {t : T} {g : Head} {fs : Ts} (hs : List Head) {sig : Signature}
      → Fields debug d t g fs
      → signature d (g ∷ hs) ≡ some sig
      → view d t ≢ View.other
  unfolding signature
  signature-not_other hs (lit v) e = absurd (cc e)
  signature-not_other hs (bool v b) e = λ o. cc
  signature-not_other hs (ctor v k x m n) e = λ o. cc
  signature-not_other hs (tuple v x) e = λ o. cc
  signature-not_other hs (list v n) e = λ o. cc

  pub count-append_ts : (fs ts : Ts) → count_ts (append_ts fs ts) ≡ count_ts fs + count_ts ts
  count-append_ts Ts.nil ts = omega arith
  count-append_ts (Ts.cons t fs) ts = omega (arith, count-append_ts fs ts)
