-- ===== src/Types/Unify/Steps.antt =====
-- src/types.rs, `unify`: what a call solves, from what the calls below it solve.
use vibelang.Base.{Option, List, ◌≡◌, refl, sym, ap, ◌∙◌, Text}
use vibelang.Types.{T, Ts}
use vibelang.Types.Unify.{Checker, resolve, replace, done, failed, out_of_fuel, Run, and_then}
use vibelang.Types.Unify.Triangular.{InScope}
use vibelang.Types.Unify.Bind.{Extends, Refines, Refines-trans, Solves}

-- An equation survives what comes later.
still :
    (s s' : List (Option T)) (x y : T)
    → Extends s s'
    → resolve s x ≡ resolve s y
    → resolve s' x ≡ resolve s' y
still s s' x y more e = sym (more x) ∙ ap (resolve s') e ∙ more y

pub later-InScope : {s s' : List (Option T)} (t : T) → Refines s s' → InScope s t → InScope s' t
later-InScope t r h w m = rw r.same_length (h w m)

pub and_then-Solves :
    (c : Checker) (a b x y p q : T) (r : Run) (k : Checker → Run)
    → Solves c x y r
    → ((c' : Checker) → Refines c.subst c'.subst → Solves c' p q (k c'))
    → ((s : List (Option T))
        → resolve s x ≡ resolve s y
        → resolve s p ≡ resolve s q
        → resolve s a ≡ resolve s b)
    → Solves c a b (and_then r k)
and_then-Solves c a b x y p q (c', done) k first next join =
    let then_next = next c' first.refines in
    record {
      refines = Refines-trans first.refines then_next.refines;
      solved = λ e.
          join _ (still _ _ x y then_next.refines.extends (first.solved refl)) (then_next.solved e);
    }
and_then-Solves c a b x y p q (c', failed d) k first next join = record {
  refines = first.refines;
  solved = λ e. absurd (cc e);
}
and_then-Solves c a b x y p q (c', out_of_fuel) k first next join = record {
  refines = first.refines;
  solved = λ e. absurd (cc e);
}

pub tuple_join :
    (x y : T) (xs ys : Ts) (s : List (Option T))
    → resolve s x ≡ resolve s y
    → resolve s (T.tuple xs) ≡ resolve s (T.tuple ys)
    → resolve s (T.tuple (Ts.cons x xs)) ≡ resolve s (T.tuple (Ts.cons y ys))
unfolding resolve replace
tuple_join x y xs ys s e f = cc (e, f)

pub fun_join :
    (p q r t : T) (s : List (Option T))
    → resolve s p ≡ resolve s q
    → resolve s r ≡ resolve s t
    → resolve s (T.fun p r) ≡ resolve s (T.fun q t)
unfolding resolve replace
fun_join p q r t s e f = cc (e, f)

-- The same arguments under one constructor.
pub Solves-con :
    {c : Checker} {n m : Text} {xs ys : Ts} {r : Run}
    → n ≡ m
    → Solves c (T.tuple xs) (T.tuple ys) r
    → Solves c (T.con n xs) (T.con m ys) r
unfolding resolve replace
Solves-con e h = record { refines = h.refines; solved = λ d. cc (e, h.solved d) }

pub Solves-eff : {c : Checker} {a b : T} {r : Run} → Solves c a b r → Solves c (T.eff a) (T.eff b) r
unfolding resolve replace
Solves-eff h = record { refines = h.refines; solved = λ d. ap T.eff (h.solved d) }

pub Solves_swap : {c : Checker} {a b : T} {r : Run} → Solves c a b r → Solves c b a r
Solves_swap h = record { refines = h.refines; solved = λ d. sym (h.solved d) }
