-- ===== src/Escape/CallMap.antt =====
-- src/escape.rs, the first loop of `releasable`: what the map of calls and the first taints hold.
use vibelang.Base.{
  Text, Bool, true, false, not, List, [], ◌∷◌, ◌≡◌, sym, any, all, text_eq, Bool-cases, In, here,
  there, In-cons, subst, ◌⊎◌, inl, inr, and_true, not_true, ap,
}
use vibelang.Ast.{FunDecl}
use vibelang.Escape.{Entry, Calls, collect, insert, call_map, direct}

-- No two functions have one name.
abbrev pub Distinct : List FunDecl → Type 0
Distinct [] = Unit
Distinct (f ∷ fs) = (all (λ (g : FunDecl). not (text_eq f.name g.name)) fs ≡ true) × Distinct fs

abbrev pub entry_of : FunDecl → Entry
entry_of f = (f.name, collect f.body)

In-insert_self : (n : Text) (ns : List Text) (cs : Calls) → In {A = Entry} (n, ns) (insert n ns cs)
unfolding insert
In-insert_self n ns [] = here
In-insert_self n ns ((m, ms) ∷ cs) = elim (Bool-cases (text_eq m n)) [
  | inl same ↦ rw (insert, same) here
  | inr other ↦ rw (insert, other) (there (In-insert_self n ns cs))
]

In-insert :
    (n : Text) (ns : List Text) (cs : Calls) {e : Entry}
    → text_eq e.0 n ≡ false
    → In e cs
    → In e (insert n ns cs)
unfolding insert
In-insert n ns [] h m = elim m [ ]
In-insert n ns ((k, ks) ∷ cs) {e} h m = elim (Bool-cases (text_eq k n)) [
  | inl same ↦
      rw (insert, same)
        (elim (In-cons m) [
          | inl q ↦ absurd (cc (h, same, ap (λ (x : Entry). text_eq x.0 n) q))
          | inr later ↦ there later
        ])
  | inr other ↦
      rw (insert, other)
        (elim (In-cons m) [
          | inl q ↦ subst (λ x. In x ((k, ks) ∷ insert n ns cs)) (sym q) here
          | inr later ↦ there (In-insert n ns cs h later)
        ])
]

insert-In :
    (n : Text) (ns : List Text) (cs : Calls) {e : Entry}
    → In e (insert n ns cs)
    → (e ≡ (n, ns)) ⊎ In e cs
unfolding insert
insert-In n ns [] m = elim (In-cons m) [ inl q ↦ inl q | inr later ↦ elim later [ ] ]
insert-In n ns ((k, ks) ∷ cs) {e} m = elim (Bool-cases (text_eq k n)) [
  | inl same ↦ elim (In-cons (rw (insert, same) at m)) [
    | inl q ↦ inl q
    | inr later ↦ inr (there later)
  ]
  | inr other ↦ elim (In-cons (rw (insert, other) at m)) [
    | inl q ↦ inr (subst (λ x. In x ((k, ks) ∷ cs)) (sym q) here)
    | inr later ↦ elim (insert-In n ns cs later) [ inl q ↦ inl q | inr l ↦ inr (there l) ]
  ]
]

call_map-keeps :
    (fs : List FunDecl) (cs : Calls) {e : Entry}
    → all (λ (g : FunDecl). not (text_eq e.0 g.name)) fs ≡ true
    → In e cs
    → In e (call_map fs cs)
unfolding call_map
call_map-keeps [] cs h m = m
call_map-keeps (f ∷ fs) cs {e} h m =
    let (now, later) = and_true (not (text_eq e.0 f.name)) _ h in
    call_map-keeps fs (insert f.name (collect f.body) cs) later
      (In-insert f.name (collect f.body) cs (not_true _ now) m)

-- Every function has its entry.
pub In-call_map :
    (fs : List FunDecl) (cs : Calls) {f : FunDecl}
    → Distinct fs
    → In f fs
    → In (entry_of f) (call_map fs cs)
unfolding call_map
In-call_map [] cs d m = elim m [ ]
In-call_map (g ∷ fs) cs {f} d m = elim (In-cons m) [
  | inl same ↦
      subst (λ (x : FunDecl). In (entry_of x) (call_map fs (insert g.name (collect g.body) cs)))
        (sym same) (call_map-keeps fs _ d.0 (In-insert_self g.name (collect g.body) cs))
  | inr later ↦ In-call_map fs _ d.1 later
]

-- Every entry is a function's.
pub call_map-In :
    (fs : List FunDecl) (cs : Calls) {e : Entry}
    → In e (call_map fs cs)
    → In e cs ⊎ ((f : FunDecl) × In f fs × (e ≡ entry_of f))
unfolding call_map
call_map-In [] cs m = inl m
call_map-In (g ∷ fs) cs m = elim (call_map-In fs (insert g.name (collect g.body) cs) m) [
  | inr (f, n, q) ↦ inr (f, there n, q)
  | inl n ↦ elim (insert-In g.name (collect g.body) cs n) [
    | inl q ↦ inr (g, here, q)
    | inr old ↦ inl old
  ]
]

pub In-direct :
    (is_ext : Text → Bool) (fs : List FunDecl) {f : FunDecl}
    → In f fs
    → any is_ext (collect f.body) ≡ true
    → In f.name (direct is_ext fs)
unfolding direct
In-direct is_ext [] m h = elim m [ ]
In-direct is_ext (g ∷ fs) {f} m h = elim (In-cons m) [
  | inl same ↦
      let h' : any is_ext (collect g.body) ≡ true =
        subst (λ (x : FunDecl). any is_ext (collect x.body) ≡ true) same h in
      rw (direct, h')
        (subst (λ (x : FunDecl). In x.name (g.name ∷ direct is_ext fs)) (sym same) here)
  | inr later ↦ elim (Bool-cases (any is_ext (collect g.body))) [
    | inl y ↦ rw (direct, y) (there (In-direct is_ext fs later h))
    | inr n ↦ rw (direct, n) (In-direct is_ext fs later h)
  ]
]

pub direct-In :
    (is_ext : Text → Bool) (fs : List FunDecl) {n : Text}
    → In n (direct is_ext fs)
    → (f : FunDecl) × In f fs × (any is_ext (collect f.body) ≡ true) × (n ≡ f.name)
unfolding direct
direct-In is_ext [] m = elim m [ ]
direct-In is_ext (g ∷ fs) m = elim (Bool-cases (any is_ext (collect g.body))) [
  | inl y ↦ elim (In-cons (rw (direct, y) at m)) [
    | inl q ↦ (g, here, y, q)
    | inr later ↦ let (f, a, b, c) = direct-In is_ext fs later in (f, there a, b, c)
  ]
  | inr n ↦ let (f, a, b, c) = direct-In is_ext fs (rw (direct, n) at m) in (f, there a, b, c)
]
