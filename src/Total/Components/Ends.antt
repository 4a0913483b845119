-- ===== src/Total/Components/Ends.antt =====
-- src/total.rs, `call_components`: the loops end.
use vibelang.Base.{
  ℕ, zero, suc, ◌+◌, ◌-◌, ◌≤◌, ◌<◌, true, false, Option, none, some, List, [], ◌∷◌, ◌≡◌, refl, ap,
  ◌∙◌, arith, ◌==◌, get_or, get_elem?, set, length, if◌then◌else◌, Bool-cases, inl, inr, and_true,
}
use vibelang.Total.Calls.{Call}
use vibelang.Total.Components.{
  Tarjan, Entry, is_none, unseen, index_at, is_fresh, enter, met_again, pop_to, close, tell_parent,
  calls_of, follow, round, work_loop, root_loop, rounds, fresh_state, call_components,
  components_of, repeat, up_from,
}

-- What the functions that have not been met still cost: two rounds each, and one for each call.
abbrev unmet : List (Option ℕ) → List (List Call) → ℕ
unmet [] css = 0
unmet (none ∷ os) [] = 2 + unmet os []
unmet (none ∷ os) (cs ∷ css) = length cs + 2 + unmet os css
unmet (some i ∷ os) [] = unmet os []
unmet (some i ∷ os) (cs ∷ css) = unmet os css

unmet-set :
    (os : List (Option ℕ)) (css : List (List Call)) (v i : ℕ)
    → is_none (get_or os v (some 0)) ≡ true
    → unmet (set os v (some i)) css + (length (get_or css v []) + 2) ≡ unmet os css
unmet-set [] css v i h = cc h
unmet-set (none ∷ os) [] zero i h = omega arith
unmet-set (none ∷ os) (cs ∷ css) zero i h = omega arith
unmet-set (some j ∷ os) css zero i h = cc h
unmet-set (none ∷ os) [] (suc v) i h = omega (arith, unmet-set os [] v i h)
unmet-set (none ∷ os) (cs ∷ css) (suc v) i h = omega (arith, unmet-set os css v i h)
unmet-set (some j ∷ os) [] (suc v) i h = unmet-set os [] v i h
unmet-set (some j ∷ os) (cs ∷ css) (suc v) i h = unmet-set os css v i h

get_elem?-lt : (cs : List Call) (k : ℕ) {c : Call} → get_elem? cs k ≡ some c → k < length cs
get_elem?-lt [] k h = cc h
get_elem?-lt (d ∷ cs) zero h = omega arith
get_elem?-lt (d ∷ cs) (suc k) h = omega (arith, get_elem?-lt cs k h)

index-pop_to : (v : ℕ) (ws : List ℕ) (t : Tarjan) → (pop_to v ws t).index ≡ t.index
unfolding pop_to
index-pop_to v [] t = refl
index-pop_to v (w ∷ ws) t = elim (Bool-cases (w == v)) [
  | inl y ↦ rw (pop_to, y) refl
  | inr n ↦ rw (pop_to, n) (index-pop_to v ws _)
]

index-close : (v : ℕ) (t : Tarjan) → (close v t).index ≡ t.index
unfolding close
index-close v t = elim (Bool-cases (get_or t.low v 0 == index_at t v)) [
  | inl y ↦ rw (close, y) (index-pop_to v t.stack t)
  | inr n ↦ rw (close, n) refl
]

index-tell_parent :
    (v : ℕ) (work : List Entry) (t : Tarjan) → (tell_parent v work t).index ≡ t.index
unfolding tell_parent
index-tell_parent v [] t = refl
index-tell_parent v (e ∷ work) t = refl

index-met_again : (v w : ℕ) (t : Tarjan) → (met_again v w t).index ≡ t.index
unfolding met_again
index-met_again v w t = elim (Bool-cases (get_or t.on_stack w false)) [
  | inl y ↦ rw y refl
  | inr n ↦ rw n refl
]

module _ (calls : List (List Call)) where
  -- What an entry that has been met still costs.
  abbrev entry_cost : Entry → ℕ
  entry_cost (v, k) = suc (length (calls_of calls v) - k)

  abbrev top_cost : Tarjan → Entry → ℕ
  top_cost t e = if is_fresh t e then 0 else entry_cost e

  abbrev rest_cost : List Entry → ℕ
  rest_cost [] = 0
  rest_cost (e ∷ work) = entry_cost e + rest_cost work

  -- The rounds that are left.
  abbrev cost : List Entry → Tarjan → ℕ
  cost [] t = unmet t.index calls
  cost (e ∷ work) t = unmet t.index calls + (top_cost t e + rest_cost work)

  cost-le : (work : List Entry) (t : Tarjan) → cost work t ≤ unmet t.index calls + rest_cost work
  cost-le [] t = omega arith
  cost-le ((v, k) ∷ work) t = elim (Bool-cases (is_fresh t (v, k))) [
    | inl y ↦ rw y (omega arith)
    | inr n ↦ rw n (omega arith)
  ]

  enter_cost :
      (v k : ℕ) (t : Tarjan)
      → unmet (enter (v, k) t).index calls + entry_cost (v, k)
        ≤ unmet t.index calls + top_cost t (v, k)
  unfolding enter
  enter_cost v k t = elim (Bool-cases (is_fresh t (v, k))) [
    | inr n ↦ rw (enter, n) (omega arith)
    | inl y ↦
        let (z, u) = and_true (k == 0) (unseen t v) y in
        rw (enter, y) (omega (arith, unmet-set t.index calls v t.next u))
  ]

  cost-follow :
      (v k : ℕ) (work : List Entry) (t : Tarjan) (o : Option Call)
      → get_elem? (calls_of calls v) k ≡ o
      → cost (follow calls (v, k) work t o).0 (follow calls (v, k) work t o).1
        < unmet t.index calls + (entry_cost (v, k) + rest_cost work)
  unfolding follow
  cost-follow v k work t none h =
      let same : (close v (tell_parent v work t)).index ≡ t.index =
        index-close v (tell_parent v work t) ∙ index-tell_parent v work t in
      omega (
        arith,
        cost-le work (close v (tell_parent v work t)),
        ap (λ (os : List (Option ℕ)). unmet os calls) same,
      )
  cost-follow v k work t (some c) h =
      let more : k < length (calls_of calls v) = get_elem?-lt (calls_of calls v) k h in
      elim (Bool-cases (unseen t c.callee)) [
        | inl y ↦
            let free : top_cost t (c.callee, 0) ≡ 0 = rw y refl in
            rw (follow, y) (omega (arith, more, free))
        | inr n ↦
            rw (follow, n)
              (omega (
                arith,
                more,
                cost-le ((v, suc k) ∷ work) (met_again v c.callee t),
                ap (λ (os : List (Option ℕ)). unmet os calls) (index-met_again v c.callee t),
              ))
      ]

  cost-round :
      (v k : ℕ) (work : List Entry) (t : Tarjan)
      → cost (round calls (v, k) work t).0 (round calls (v, k) work t).1 < cost ((v, k) ∷ work) t
  unfolding round
  cost-round v k work t = omega (
    arith,
    cost-follow v k work (enter (v, k) t) (get_elem? (calls_of calls v) k) refl,
    enter_cost v k t,
  )

  -- With more fuel than rounds are left, the loop ends, and has no less met than before.
  work_loop-total :
      (f : ℕ) (work : List Entry) (t : Tarjan)
      → cost work t < f
      → (t' : Tarjan) × (work_loop calls f work t ≡ some t') × (unmet t'.index calls ≤ cost work t)
  unfolding work_loop
  work_loop-total f [] t h = (t, refl, omega arith)
  work_loop-total zero (e ∷ work) t h = absurd (omega arith)
  work_loop-total (suc f) ((v, k) ∷ work) t h =
      let next : List Entry × Tarjan = round calls (v, k) work t in
      let (t', q, le) = work_loop-total f next.0 next.1 (omega (arith, h, cost-round v k work t)) in
      (t', q, omega (arith, le, cost-round v k work t))

  root_loop-total :
      (f : ℕ) (roots : List ℕ) (t : Tarjan)
      → unmet t.index calls < f
      → (t' : Tarjan) × (root_loop calls f roots t ≡ some t')
  unfolding root_loop
  root_loop-total f [] t h = (t, refl)
  root_loop-total f (r ∷ roots) t h = elim (Bool-cases (unseen t r)) [
    | inr n ↦ let (t', q) = root_loop-total f roots t h in (t', rw (root_loop, n) q)
    | inl y ↦
        let none_left : top_cost t (r, 0) ≡ 0 = rw y refl in
        let (t1, q1, le) = work_loop-total f ((r, 0) ∷ []) t (omega (arith, h, none_left)) in
        let (t', q) = root_loop-total f roots t1 (omega (arith, le, none_left, h)) in
        (t', rw (root_loop, y, q1) q)
  ]

unmet_at_first : (css : List (List Call)) → unmet (repeat (length css) none) css ≡ rounds css
unmet_at_first [] = refl
unmet_at_first (cs ∷ css) = omega (arith, unmet_at_first css)

-- The algorithm ends for any calls: two rounds for each function, one for each call and one more are
-- enough from each root.
pub call_components-total :
    (calls : List (List Call)) → (comp : List (Option ℕ)) × (call_components calls ≡ some comp)
unfolding call_components
call_components-total calls =
    let (t, q) =
      root_loop-total calls (suc (rounds calls)) (up_from 0 (length calls))
        (fresh_state (length calls)) (omega (arith, unmet_at_first calls)) in
    (t.comp, ap components_of q)
