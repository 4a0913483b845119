-- ===== src/Escape/Exact.antt =====
-- src/escape.rs, `releasable`: the functions that it returns are those that reach no foreign symbol.
use vibelang.Base.{
  ℕ, zero, suc, Text, Bool, true, false, not, ◌&&◌, some, List, [], ◌∷◌, ◌++◌, ◌≡◌, ◌↔◌, sym, ap,
  ◌∙◌, arith, any, any-In, any_witness, contains, contains-In, length, Bool-cases, In, here, there,
  In-cons, In-append, In-append_left, In-contains, subst, inl, inr, and_true, not_true, List-cases,
}
use vibelang.Ast.{FunDecl, Module}
use vibelang.Ast.Names.{funs}
use vibelang.Escape.{
  Entry, Calls, collect, call_map, direct, grows, grown, taint_loop, release, releasable,
}
use vibelang.Escape.CallMap.{Distinct, In-call_map, call_map-In, In-direct, direct-In}
use vibelang.Escape.Taint.{clean-le-length, taint_loop-total}

-- A body mentions a foreign symbol, or a function that reaches one.
pub data Reaches (is_ext : Text → Bool) (fs : List FunDecl) : Text → Type 0 where
  direct_mention :
      {f : FunDecl} {n : Text}
      → In f fs
      → In n (collect f.body)
      → is_ext n ≡ true
      → Reaches is_ext fs f.name
  through :
      {f : FunDecl} {n : Text}
      → In f fs
      → In n (collect f.body)
      → Reaches is_ext fs n
      → Reaches is_ext fs f.name

In-grown :
    (cs : Calls) (t : List Text) {n : Text}
    → In n (grown cs t)
    → (ns : List Text) × In {A = Entry} (n, ns) cs × (any (contains t) ns ≡ true)
unfolding grown
In-grown [] t m = elim m [ ]
In-grown ((k, ks) ∷ cs) t {n} m = elim (Bool-cases (grows t (k, ks))) [
  | inl y ↦ elim (In-cons (rw (grown, y) at m)) [
    | inl q ↦ (
      ks,
      subst (λ x. In {A = Entry} (x, ks) ((k, ks) ∷ cs)) (sym q) here,
      (and_true (not (contains t k)) (any (contains t) ks) y).1,
    )
    | inr later ↦ let (ns, a, b) = In-grown cs t later in (ns, there a, b)
  ]
  | inr x ↦ let (ns, a, b) = In-grown cs t (rw (grown, x) at m) in (ns, there a, b)
]

-- A set that no round adds to is closed under calls.
grown_closed :
    (cs : Calls) (t : List Text) {n : Text} {ns : List Text}
    → grown cs t ≡ []
    → In {A = Entry} (n, ns) cs
    → any (contains t) ns ≡ true
    → contains t n ≡ true
unfolding grown
grown_closed [] t e m h = elim m [ ]
grown_closed ((k, ks) ∷ cs) t {n} {ns} e m h = elim (Bool-cases (grows t (k, ks))) [
  | inl y ↦ absurd (cc (rw (grown, y) at e))
  | inr x ↦ elim (In-cons m) [
    | inl q ↦
        let key : n ≡ k = ap (λ (x : Entry). x.0) q in
        let names : ns ≡ ks = ap (λ (x : Entry). x.1) q in
        ground (arith, ap (contains t) key, ap (any (contains t)) names)
    | inr later ↦ grown_closed cs t (rw (grown, x) at e) later h
  ]
]

module _ (is_ext : Text → Bool) (fs : List FunDecl) where
  abbrev AllReach : List Text → Type 0
  AllReach t = (n : Text) → In n t → Reaches is_ext fs n

  direct-AllReach : AllReach (direct is_ext fs)
  direct-AllReach n m =
      let (f, a, b, q) = direct-In is_ext fs m in
      let (c, d, e) = any_witness is_ext (collect f.body) b in
      subst (Reaches is_ext fs) (sym q) (direct_mention a d e)

  grown-AllReach : (t : List Text) → AllReach t → AllReach (grown (call_map fs []) t)
  grown-AllReach t all' n m =
      let (ns, a, b) = In-grown (call_map fs []) t m in
      let (c, d, e) = any_witness (contains t) ns b in
      elim (call_map-In fs [] a) [
        | inl nothing ↦ elim nothing [ ]
        | inr (f, k, q) ↦
            let key : n ≡ f.name = ap (λ (x : Entry). x.0) q in
            let names : ns ≡ collect f.body = ap (λ (x : Entry). x.1) q in
            subst (Reaches is_ext fs) (sym key)
              (through k (subst (In c) names d) (all' c (contains-In t c e)))
      ]

  taint_loop-AllReach :
      (f : ℕ) (s : List Text) {t : List Text}
      → AllReach s
      → taint_loop f (call_map fs []) s ≡ some t
      → AllReach t
  unfolding taint_loop
  taint_loop-AllReach zero s all' e = absurd (cc e)
  taint_loop-AllReach (suc f) s {t} all' e = elim (List-cases (grown (call_map fs []) s)) [
    | inl stop ↦ let same : s ≡ t = cc (rw (taint_loop, stop) at e) in subst AllReach same all'
    | inr (n, ns, more) ↦
        taint_loop-AllReach f (s ++ (n ∷ ns))
          (λ k m. elim (In-append s (n ∷ ns) m) [
            | inl old ↦ all' k old
            | inr new ↦ grown-AllReach s all' k (subst (In k) (sym more) new)
          ])
          (rw (taint_loop, more) at e)
  ]

  taint_loop-keeps :
      (f : ℕ) (s : List Text) {t : List Text} {n : Text}
      → taint_loop f (call_map fs []) s ≡ some t
      → In n s
      → In n t
  unfolding taint_loop
  taint_loop-keeps zero s e m = absurd (cc e)
  taint_loop-keeps (suc f) s {t} {n} e m = elim (List-cases (grown (call_map fs []) s)) [
    | inl stop ↦ let same : s ≡ t = cc (rw (taint_loop, stop) at e) in subst (In n) same m
    | inr (k, ns, more) ↦
        taint_loop-keeps f (s ++ (k ∷ ns)) (rw (taint_loop, more) at e) (In-append_left _ m)
  ]

  -- What reaches a foreign symbol is tainted.
  Reaches-contains :
      (t : List Text) {n : Text}
      → Distinct fs
      → ((k : Text) → In k (direct is_ext fs) → In k t)
      → grown (call_map fs []) t ≡ []
      → Reaches is_ext fs n
      → contains t n ≡ true
  Reaches-contains t d first stop (direct_mention {f} m c h) =
      In-contains t f.name (first f.name (In-direct is_ext fs m (any-In is_ext c h)))
  Reaches-contains t d first stop (through {f} m c r) =
      grown_closed (call_map fs []) t stop (In-call_map fs [] d m)
        (any-In (contains t) c (Reaches-contains t d first stop r))

not_contains : (t : List Text) (n : Text) → ¬ In n t → contains t n ≡ false
not_contains t n h = elim (Bool-cases (contains t n)) [
  | inl y ↦ absurd (h (contains-In t n y))
  | inr x ↦ x
]

abbrev Released : List FunDecl → List Text → Text → Type 0
Released fs t n =
    (f : FunDecl) × In f fs × (f.name ≡ n) × (f.ghost ≡ false) × (contains t n ≡ false)

release-Released :
    (fs : List FunDecl) (t : List Text) (n : Text) → In n (release fs t) → Released fs t n
unfolding release
release-Released [] t n m = elim m [ ]
release-Released (f ∷ fs) t n m = elim (Bool-cases (not f.ghost && not (contains t f.name))) [
  | inl y ↦ elim (In-cons (rw (release, y) at m)) [
    | inl q ↦
        let (a, b) = and_true (not f.ghost) _ y in
        (f, here, sym q, not_true f.ghost a, ap (contains t) q ∙ not_true _ b)
    | inr later ↦ let (g, a, b, c, e) = release-Released fs t n later in (g, there a, b, c, e)
  ]
  | inr x ↦
      let (g, a, b, c, e) = release-Released fs t n (rw (release, x) at m) in (g, there a, b, c, e)
]

Released-release :
    (fs : List FunDecl) (t : List Text) (n : Text) → Released fs t n → In n (release fs t)
unfolding release
Released-release [] t n (f, m, q, gh, c) = elim m [ ]
Released-release (g ∷ fs) t n (f, m, q, gh, c) = elim (In-cons m) [
  | inl same ↦
      let ok : (not g.ghost && not (contains t g.name)) ≡ true = ground (
        arith,
        ap (λ (x : FunDecl). x.ghost) same,
        ap (λ (x : FunDecl). contains t x.name) same,
        ap (contains t) q,
      ) in
      rw (release, ok)
        (subst (λ x. In x (g.name ∷ release fs t)) (ap (λ (x : FunDecl). x.name) (sym same) ∙ q)
          here)
  | inr later ↦
      let rest = Released-release fs t n (f, later, q, gh, c) in
      elim (Bool-cases (not g.ghost && not (contains t g.name))) [
        | inl y ↦ rw (release, y) (there rest)
        | inr x ↦ rw (release, x) rest
      ]
]

-- In a module whose functions have different names, `releasable` ends, and the names that it returns
-- are exactly those of the functions that are no ghosts and reach no foreign symbol, by a mention in
-- their body or in that of a function that they mention, and so on.
pub releasable_exact :
    (is_ext : Text → Bool) (m : Module)
    → Distinct (funs m)
    → (r : List Text) × (releasable is_ext m ≡ some r)
      × ((n : Text)
          → In n r ↔ (
              (f : FunDecl) × In f (funs m)
              × (f.name ≡ n)
              × (f.ghost ≡ false)
              × ¬ Reaches is_ext (funs m) n))
unfolding releasable
releasable_exact is_ext m d =
    let fs = funs m in
    let cs = call_map fs [] in
    let (t, e, stop) =
      taint_loop-total (suc (length cs)) cs (direct is_ext fs)
        (omega (arith, clean-le-length cs (direct is_ext fs))) in
    let reach =
      taint_loop-AllReach is_ext fs (suc (length cs)) (direct is_ext fs) (direct-AllReach is_ext fs)
        e in
    let kept =
      λ (k : Text). taint_loop-keeps is_ext fs (suc (length cs)) (direct is_ext fs) {n = k} e in
    (
      release fs t,
      rw (releasable, e),
      λ n. (
        λ i.
            let (f, a, b, g, c) = release-Released fs t n i in
            (f, a, b, g, λ r. cc (c, Reaches-contains is_ext fs t d kept stop r)),
        λ (f, a, b, g, no_reach).
            Released-release fs t n (f, a, b, g, not_contains t n (λ i. no_reach (reach n i))),
      ),
    )
