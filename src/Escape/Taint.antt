-- ===== src/Escape/Taint.antt =====
-- src/escape.rs, the loop of `releasable`: it ends, and its result is closed under calls.
use vibelang.Base.{
  ℕ, zero, suc, ◌+◌, ◌≤◌, ◌<◌, Text, true, some, List, [], ◌∷◌, ◌++◌, ◌≡◌, ap, arith, contains,
  contains-append, length, if◌then◌else◌, Bool-cases, In, here, In-cons, List-cases, In-contains,
  inl, inr,
}
use vibelang.Escape.{Calls, grows, grown, taint_loop}

-- How many entries are not tainted.
unfoldable pub clean : Calls → List Text → ℕ
clean [] tainted = 0
clean ((n, ns) ∷ cs) tainted = (if contains tainted n then 0 else 1) + clean cs tainted

clean-append : (cs : Calls) (s t : List Text) → clean cs (s ++ t) ≤ clean cs s
unfolding clean
clean-append [] s t = omega arith
clean-append ((n, ns) ∷ cs) s t = ground (arith, contains-append s t n, clean-append cs s t)

-- Tainting a name that a round adds leaves fewer clean entries.
clean-append_lt :
    (cs : Calls) (s t : List Text) {n : Text}
    → In n (grown cs s)
    → contains t n ≡ true
    → clean cs (s ++ t) < clean cs s
unfolding clean grown
clean-append_lt [] s t m h = elim m [ ]
clean-append_lt ((k, ns) ∷ cs) s t {n} m h = elim (Bool-cases (grows s (k, ns))) [
  | inl yes' ↦ elim (In-cons (rw (grown, yes') at m)) [
    | inl same ↦ ground (arith, contains-append s t k, clean-append cs s t, ap (contains t) same)
    | inr later ↦ ground (arith, contains-append s t k, clean-append_lt cs s t later h)
  ]
  | inr no' ↦ ground (arith, contains-append s t k, clean-append_lt cs s t (rw (grown, no') at m) h)
]

pub clean-le-length : (cs : Calls) (s : List Text) → clean cs s ≤ length cs
unfolding clean
clean-le-length [] s = omega arith
clean-le-length ((n, ns) ∷ cs) s = ground (arith, clean-le-length cs s)

-- On more fuel than there are entries not tainted, the loop ends with a set that no round adds to.
pub taint_loop-total :
    (f : ℕ) (cs : Calls) (s : List Text)
    → clean cs s < f
    → (t : List Text) × (taint_loop f cs s ≡ some t) × (grown cs t ≡ [])
unfolding taint_loop
taint_loop-total zero cs s h = absurd (omega arith)
taint_loop-total (suc f) cs s h = elim (List-cases (grown cs s)) [
  | inl stop ↦ (s, rw (taint_loop, stop), stop)
  | inr (n, ns, more) ↦
      let drop : clean cs (s ++ (n ∷ ns)) < clean cs s =
        clean-append_lt cs s (n ∷ ns) {n = n} (rw more here) (In-contains (n ∷ ns) n here) in
      let (t, e, stop) = taint_loop-total f cs (s ++ (n ∷ ns)) (omega arith) in
      (t, rw (taint_loop, more) e, stop)
]
