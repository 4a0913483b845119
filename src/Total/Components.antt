-- ===== src/Total/Components.antt =====
-- src/total.rs, `call_components`: Tarjan's algorithm with its work list, one round of the loop at a
-- time. `UNSEEN` is `none`, and `index_at` is read of functions that have been met. A function that
-- is out of range, where the source panics, counts as seen.
pub mod Ends
use vibelang.Base.{
  ℕ, zero, suc, ◌+◌, min, Bool, true, false, ◌&&◌, Option, none, some, List, [], ◌∷◌, ◌++◌, ◌==◌,
  get_or, get_elem?, set, length, if◌then◌else◌,
}
use vibelang.Total.Calls.{Call}

pub record Tarjan : Type 0 where
  pub index : List (Option ℕ)
  pub low : List ℕ
  pub on_stack : List Bool
  pub comp : List (Option ℕ)
  pub next : ℕ
  pub ncomp : ℕ
  pub stack : List ℕ

-- A function, and how many of its calls have been followed.
abbrev pub Entry : Type 0
Entry = ℕ × ℕ

abbrev pub is_none : Option ℕ → Bool
is_none none = true
is_none (some _) = false

abbrev pub unseen : Tarjan → ℕ → Bool
unseen t v = is_none (get_or t.index v (some 0))

abbrev pub or_zero : Option ℕ → ℕ
or_zero none = 0
or_zero (some i) = i

abbrev pub index_at : Tarjan → ℕ → ℕ
index_at t v = or_zero (get_or t.index v (some 0))

-- The top of the work list is met for the first time.
abbrev pub is_fresh : Tarjan → Entry → Bool
is_fresh t (v, k) = k == 0 && unseen t v

-- The first `if` of a round.
unfoldable pub enter : Entry → Tarjan → Tarjan
enter (v, k) t =
    if is_fresh t (v, k)
    then record t {
      index = set t.index v (some t.next);
      low = set t.low v t.next;
      next = suc t.next;
      stack = v ∷ t.stack;
      on_stack = set t.on_stack v true;
    }
    else t

-- `low[v] = low[v].min(x)`.
abbrev lower : ℕ → ℕ → Tarjan → Tarjan
lower v x t = record t { low = set t.low v (min (get_or t.low v 0) x) }

-- A call of `w` that `v` makes to a function that has been met.
unfoldable pub met_again : ℕ → ℕ → Tarjan → Tarjan
met_again v w t = if get_or t.on_stack w false then lower v (index_at t w) t else t

-- The innermost loop: the stack down to `v` becomes a component.
unfoldable pub pop_to : ℕ → List ℕ → Tarjan → Tarjan
pop_to v [] t = record t { stack = [] }
pop_to v (w ∷ ws) t =
    let t' : Tarjan = record t {
      stack = ws;
      on_stack = set t.on_stack w false;
      comp = set t.comp w (some t.ncomp);
    } in
    let rest = pop_to v ws t' in if w == v then t' else rest

abbrev pub next_component : Tarjan → Tarjan
next_component t = record t { ncomp = suc t.ncomp }

-- The root of a component closes it.
unfoldable pub close : ℕ → Tarjan → Tarjan
unfolding pop_to
close v t = if get_or t.low v 0 == index_at t v then next_component (pop_to v t.stack t) else t

-- What the parent learns of `v`.
unfoldable pub tell_parent : ℕ → List Entry → Tarjan → Tarjan
tell_parent v [] t = t
tell_parent v ((p, _) ∷ work) t = lower p (get_or t.low v 0) t

module _ (calls : List (List Call)) where
  abbrev pub calls_of : ℕ → List Call
  calls_of v = get_or calls v []

  -- A round on the top of the work list, after `enter`, with the call that is next.
  unfoldable pub follow : Entry → List Entry → Tarjan → Option Call → List Entry × Tarjan
  unfolding met_again close tell_parent
  follow (v, k) work t none = (work, close v (tell_parent v work t))
  follow (v, k) work t (some c) =
      if unseen t c.callee
      then ((c.callee, 0) ∷ (v, suc k) ∷ work, t)
      else ((v, suc k) ∷ work, met_again v c.callee t)

  -- A round.
  unfoldable pub round : Entry → List Entry → Tarjan → List Entry × Tarjan
  unfolding follow enter
  round (v, k) work t = follow (v, k) work (enter (v, k) t) (get_elem? (calls_of v) k)

  -- The loop over the work list, on fuel for its rounds.
  unfoldable pub work_loop : ℕ → List Entry → Tarjan → Option Tarjan
  unfolding round
  work_loop f [] t = some t
  work_loop zero (e ∷ work) t = none
  work_loop (suc f) (e ∷ work) t = let (work', t') = round e work t in work_loop f work' t'

  abbrev pub with_state : Option Tarjan → (Tarjan → Option Tarjan) → Option Tarjan
  with_state none f = none
  with_state (some t) f = f t

  -- The loop over the roots.
  unfoldable pub root_loop : ℕ → List ℕ → Tarjan → Option Tarjan
  unfolding work_loop
  root_loop f [] t = some t
  root_loop f (root ∷ roots) t =
      if unseen t root
      then with_state (work_loop f ((root, 0) ∷ []) t) (root_loop f roots)
      else root_loop f roots t

abbrev pub repeat {ℓ} : {A : Type ℓ} → ℕ → A → List A
repeat zero a = []
repeat (suc n) a = a ∷ repeat n a

abbrev pub up_from : ℕ → ℕ → List ℕ
up_from i zero = []
up_from i (suc n) = i ∷ up_from (suc i) n

abbrev pub fresh_state : ℕ → Tarjan
fresh_state n = record {
  index = repeat n none;
  low = repeat n 0;
  on_stack = repeat n false;
  comp = repeat n none;
  next = 0;
  ncomp = 0;
  stack = [];
}

-- Two rounds for each function and one for each call.
abbrev pub rounds : List (List Call) → ℕ
rounds [] = 0
rounds (cs ∷ css) = length cs + 2 + rounds css

abbrev pub components_of : Option Tarjan → Option (List (Option ℕ))
components_of none = none
components_of (some t) = some t.comp

-- `call_components`, on a fuel of one more than `rounds` for each root.
unfoldable pub call_components : List (List Call) → Option (List (Option ℕ))
unfolding root_loop
call_components calls =
    components_of
      (root_loop calls (suc (rounds calls)) (up_from 0 (length calls)) (fresh_state (length calls)))
