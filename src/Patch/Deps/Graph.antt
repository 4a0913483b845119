-- ===== src/Patch/Deps/Graph.antt =====
-- src/patch.rs, `deps`: which names are callees and callers.
use vibelang.Base.{
  Text, Bool, true, List, [], ◌∷◌, map, keep, ◌≡◌, ◌↔◌, refl, sym, ap, ap₂, ◌∙◌, text_eq,
  text_eq_refl, text_eq→eq, In, here, there, In-cons, In-append, In-append_left, In-append_right,
  Bool-cases, inl, inr, and_true,
}
use vibelang.Base.Sorting.{
  IsAscending, sort, text_lt, text_lt_asym, text_lt_total, In-sort, sort-In, sort-IsSorted,
  In-dedup, dedup-In, dedup-IsAscending,
}
use vibelang.Ast.{Expr, children, FunDecl}
use vibelang.Ast.Fold.{fold_lem, Expr-induction}
use vibelang.Patch.Deps.{
  qualified, plain_name, flatten, call_names, collect_calls, is_kept, callees, known_names, Edge,
  edge_lt, edge_eq, edges, caller_edges, callers,
}

-- A name that an expression calls: the qualified name of a field of a constructor and nothing below
-- it, and elsewhere the name of a variable or constructor at any depth.
pub data Calls (n : Text) : Expr → Type 0 where
  other_module : {e : Expr} → In n (qualified e) → Calls n e
  named : {e : Expr} → qualified e ≡ [] → In n (plain_name e) → Calls n e
  inside : {e c : Expr} → qualified e ≡ [] → In c (children e) → Calls n c → Calls n e

module _ {A : Type 0} (p : A → Bool) where
  In-keep : {x : A} (xs : List A) → In x (keep p xs) → In x xs × (p x ≡ true)
  In-keep [] m = elim m [ ]
  In-keep (y ∷ xs) m = elim (Bool-cases (p y)) [
    | inr n ↦ let (i, h) = In-keep xs (rw n at m) in (there i, h)
    | inl e ↦ elim (In-cons (rw e at m)) [
      | inl same ↦ rw same (here, e)
      | inr later ↦ let (i, h) = In-keep xs later in (there i, h)
    ]
  ]

  keep-In : {x : A} (xs : List A) → In x xs → p x ≡ true → In x (keep p xs)
  keep-In [] m h = elim m [ ]
  keep-In (y ∷ xs) here h = rw h here
  keep-In (y ∷ xs) (there m) h = elim (Bool-cases (p y)) [
    | inl e ↦ rw e (there (keep-In xs m h))
    | inr n ↦ rw n (keep-In xs m h)
  ]

module _ {A B : Type 0} (f : A → B) where
  In-map : {y : B} (xs : List A) → In y (map f xs) → (x : A) × In x xs × (f x ≡ y)
  In-map [] m = elim m [ ]
  In-map (x ∷ xs) m = elim (In-cons m) [
    | inl same ↦ (x, here, sym same)
    | inr later ↦ let (z, i, e) = In-map xs later in (z, there i, e)
  ]

  map-In : {x : A} (xs : List A) → In x xs → In (f x) (map f xs)
  map-In [] m = elim m [ ]
  map-In (x ∷ xs) here = here
  map-In (y ∷ xs) (there m) = there (map-In xs m)

flatten-In :
    (g : Expr → List Text) {n : Text} {c : Expr} (cs : List Expr)
    → In c cs
    → In n (g c)
    → In n (flatten (map g cs))
flatten-In g [] i m = elim i [ ]
flatten-In g (c ∷ cs) here m = In-append_left (flatten (map g cs)) m
flatten-In g (d ∷ cs) (there i) m = In-append_right (g d) (flatten-In g cs i m)

In-flatten :
    (g : Expr → List Text) {n : Text} (cs : List Expr)
    → In n (flatten (map g cs))
    → (c : Expr) × In c cs × In n (g c)
In-flatten g [] m = elim m [ ]
In-flatten g (c ∷ cs) m = elim (In-append (g c) (flatten (map g cs)) m) [
  | inl h ↦ (c, here, h)
  | inr h ↦ let (d, i, k) = In-flatten g cs h in (d, there i, k)
]

collect_calls_lem :
    (e : Expr)
    → collect_calls e
      ≡ call_names (qualified e) (plain_name e) (flatten (map collect_calls (children e)))
unfolding collect_calls
collect_calls_lem = fold_lem (λ e below. call_names (qualified e) (plain_name e) (flatten below))

call_names-first : {n : Text} (q own below : List Text) → In n q → In n (call_names q own below)
call_names-first [] own below m = elim m [ ]
call_names-first (x ∷ q) own below m = m

collect_calls-In : {n : Text} {e : Expr} → Calls n e → In n (collect_calls e)
collect_calls-In {e} (other_module m) =
    rw (collect_calls_lem e) (call_names-first (qualified e) _ _ m)
collect_calls-In {e} (named h m) = rw (collect_calls_lem e, h) (In-append_left _ m)
collect_calls-In {e} (inside h i c) =
    rw (collect_calls_lem e, h)
      (In-append_right (plain_name e)
        (flatten-In collect_calls (children e) i (collect_calls-In c)))

In-collect_calls : {n : Text} (e : Expr) → In n (collect_calls e) → Calls n e
In-collect_calls {n} =
    Expr-induction (λ e. In n (collect_calls e) → Calls n e)
      (λ e ih m. at_node e (qualified e) refl ih (rw (collect_calls_lem e) at m))
  where
    at_node :
        (e : Expr) (q : List Text)
        → qualified e ≡ q
        → ((c : Expr) → In c (children e) → In n (collect_calls c) → Calls n c)
        → In n (call_names (qualified e) (plain_name e) (flatten (map collect_calls (children e))))
        → Calls n e
    at_node e (x ∷ q) h ih m = other_module (rw h (rw h at m))
    at_node e [] h ih m = elim (In-append (plain_name e) _ (rw h at m)) [
      | inl own ↦ named h own
      | inr below ↦
          let (c, i, k) = In-flatten collect_calls (children e) below in inside h i (ih c i k)
    ]

-- The callees that `deps` lists for a function are exactly the names that its body calls and that are
-- known or have a dot, and each of them is less than the next in the order of their bytes.
pub callees_exact :
    (known : List Text) (f : FunDecl)
    → ((n : Text) → In n (callees known f) ↔ (Calls n f.body × (is_kept known n ≡ true)))
      × IsAscending text_lt (callees known f)
unfolding callees
callees_exact known f =
    let kept : List Text = keep (is_kept known) (collect_calls f.body) in
    (
      λ n. (
        λ m.
            let (i, h) =
              In-keep (is_kept known) (collect_calls f.body)
                (In-sort text_lt kept (In-dedup text_eq→eq (sort text_lt kept) m)) in
            (In-collect_calls f.body i, h),
        λ (c, h). dedup-In text_eq→eq (sort text_lt kept) (
            sort-In text_lt kept
              (keep-In (is_kept known) (collect_calls f.body) (collect_calls-In c) h)),
      ),
      dedup-IsAscending text_eq→eq text_lt_total (sort-IsSorted text_lt_asym kept),
    )

edge_eq→eq : (a b : Edge) → edge_eq a b ≡ true → a ≡ b
edge_eq→eq (a, x) (b, y) h =
    let (p, q) = and_true (text_eq a b) (text_eq x y) h in
    ap₂ (λ (s t : Text). (s, t)) (text_eq→eq a b p) (text_eq→eq x y q)

In-edges :
    (known : List Text) (fs : List FunDecl) {c u : Text}
    → In (c, u) (edges known fs)
    → (g : FunDecl) × In g fs × (g.name ≡ u) × In c (callees known g)
unfolding edges
In-edges known [] m = elim m [ ]
In-edges known (f ∷ fs) m = elim (In-append (map (λ c. (c, f.name)) (callees known f)) _ m) [
  | inl own ↦
      let (d, i, e) = In-map (λ (c : Text). (c, f.name)) (callees known f) own in
      (f, here, ap (λ (k : Edge). k.1) e, rw (ap (λ (k : Edge). k.0) e) at i)
  | inr later ↦ let (g, i, e, k) = In-edges known fs later in (g, there i, e, k)
]

edges-In :
    (known : List Text) (fs : List FunDecl) {g : FunDecl} {c : Text}
    → In g fs
    → In c (callees known g)
    → In (c, g.name) (edges known fs)
unfolding edges
edges-In known [] i m = elim i [ ]
edges-In known (f ∷ fs) here m =
    In-append_left _ (map-In (λ (c : Text). (c, f.name)) (callees known f) m)
edges-In known (f ∷ fs) (there i) m =
    In-append_right (map (λ c. (c, f.name)) (callees known f)) (edges-In known fs i m)

-- The callers that `deps` lists for a function are the functions of the module whose callees, as it
-- lists them, have the function's name among them.
pub callers_exact :
    (fs : List FunDecl) (f : FunDecl) (u : Text)
    → In u (callers fs f)
      ↔ ((g : FunDecl) × In g fs × (g.name ≡ u) × In f.name (callees (known_names fs) g))
unfolding callers caller_edges
callers_exact fs f u =
    let pushed : List Edge = edges (known_names fs) fs in
    (
      λ m.
          let ((c, v), i, e) =
            In-map (λ (e : Edge). e.1) (keep (λ (e : Edge). text_eq e.0 f.name) (caller_edges fs))
              m in
          let (j, h) = In-keep (λ (e : Edge). text_eq e.0 f.name) (caller_edges fs) i in
          let (g, k, q, r) =
            In-edges (known_names fs) fs
              (In-sort edge_lt pushed (In-dedup edge_eq→eq (sort edge_lt pushed) j)) in
          (g, k, q ∙ e, rw (text_eq→eq c f.name h) at r),
      λ (g, i, e, m). rw (← e) (
          map-In (λ (e : Edge). e.1) (keep (λ (e : Edge). text_eq e.0 f.name) (caller_edges fs))
            (keep-In (λ (e : Edge). text_eq e.0 f.name) (caller_edges fs)
              (dedup-In edge_eq→eq (sort edge_lt pushed)
                (sort-In edge_lt pushed (edges-In (known_names fs) fs i m)))
              (text_eq_refl f.name))),
    )
