-- ===== src/Types/Exhaustive/Columns.antt =====
-- Rows of patterns against rows of values: wildcards, rows one after the other, and the heads of
-- patterns.
use vibelang.Base.{
  ℕ, zero, suc, ◌+◌, Text, Bool, true, false, ◌&&◌, none, some, text_eq_iff, text_eq→eq, ◌≡◌, refl,
  ap, arith,
}
use native.Mathlib.Nat.{zero-add, suc-add}
use vibelang.Ast.{Pat, Pats}
use vibelang.Types.Exhaustive.{Head, head_eq, count, append_pats, wilds, bool_name, head}
use vibelang.Types.Exhaustive.Values.{
  Value, Values, count_values, append_values, matches, matches_all, splits,
}

pub head_eq→eq : (h g : Head) → head_eq h g ≡ true → h ≡ g
unfolding head_eq
head_eq→eq (Head.ctor c) (Head.ctor e) p = ap Head.ctor (text_eq→eq c e p)
head_eq→eq (Head.tuple m) (Head.tuple n) p = ground arith
head_eq→eq (Head.lit s) (Head.lit t) p = ap Head.lit (text_eq→eq s t p)
head_eq→eq (Head.list m) (Head.list n) p = ground arith
head_eq→eq h g p = absurd (cc p)

matches_all-wilds : (k : ℕ) (us : Values) → count_values us ≡ k → matches_all (wilds k) us ≡ true
unfolding matches
matches_all-wilds zero Values.nil e = refl
matches_all-wilds zero (Values.cons u us) e = absurd (omega arith)
matches_all-wilds (suc k) Values.nil e = absurd (omega arith)
matches_all-wilds (suc k) (Values.cons u us) e = matches_all-wilds k us (omega arith)

and_assoc : (a b c : Bool) → (a && (b && c)) ≡ ((a && b) && c)
and_assoc true b c = refl
and_assoc false b c = refl

pub matches_all-append :
    (ps qs : Pats) (us vs : Values)
    → count ps ≡ count_values us
    → matches_all (append_pats ps qs) (append_values us vs)
      ≡ (matches_all ps us && matches_all qs vs)
unfolding matches
matches_all-append Pats.nil qs Values.nil vs e = refl
matches_all-append Pats.nil qs (Values.cons u us) vs e = absurd (omega arith)
matches_all-append (Pats.cons p ps) qs Values.nil vs e = absurd (omega arith)
matches_all-append (Pats.cons p ps) qs (Values.cons u us) vs e =
    rw (matches_all-append ps qs us vs (omega arith))
      (and_assoc (matches p u) (matches_all ps us) _)

pub count-wilds : (k : ℕ) → count (wilds k) ≡ k
count-wilds zero = refl
count-wilds (suc k) = ap suc (count-wilds k)

pub append_pats-wilds : (k n : ℕ) → append_pats (wilds k) (wilds n) ≡ wilds (k + n)
append_pats-wilds zero n = rw zero-add
append_pats-wilds (suc k) n = rw (suc-add) (ap (Pats.cons Pat.wild) (append_pats-wilds k n))

module _ (debug : Pat → Text) where
  -- A pattern without a head matches everything.
  pub matches-no_head : (p : Pat) (v : Value) → head debug p ≡ none → matches p v ≡ true
  unfolding head matches
  matches-no_head Pat.wild v h = refl
  matches-no_head (Pat.var x) v h = refl
  matches-no_head p v h = absurd (cc h)

  -- A pattern with the head of a value matches it if what is under it matches what is under the
  -- value.
  pub matches-head :
      (p : Pat) (v : Value) {h : Head} {ps : Pats} {us : Values}
      → head debug p ≡ some (h, ps)
      → splits v ≡ some (h, us)
      → matches_all ps us ≡ true
      → matches p v ≡ true
  unfolding head matches splits
  matches-head (Pat.bool b) (Value.ctor c us) hp hv m = ground (arith, text_eq_iff (bool_name b) c)
  matches-head (Pat.ctor e ps) (Value.ctor c us) hp hv m = ground (arith, text_eq_iff e c)
  matches-head (Pat.tuple ps) (Value.tuple us) hp hv m = ground arith
  matches-head (Pat.list ps) (Value.list us) hp hv m = ground arith
  matches-head p v hp hv m = ground arith
