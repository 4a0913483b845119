-- ===== src/Types/Exhaustive/Values.antt =====
-- What exhaustiveness is about: values, which of them a pattern matches, and the typing that
-- inference gives to the patterns of a column and to the values that can reach it.
use vibelang.Base.{
  ℕ, zero, suc, Text, Bool, true, false, ◌&&◌, ◌||◌, Option, none, some, List, [], ◌∷◌, codes, ◌==◌,
  text_eq, contains, if◌then◌else◌, ◌≡◌,
}
use vibelang.Base.Int.{ℤ, pos, negsuc}
use vibelang.Ast.{Ty, Tys, Pat, Pats}
use vibelang.Types.{T, Ts, CtorInfo, Data}
use vibelang.Types.Exhaustive.{Head, bool_name, is_bool_name, head}

-- A value of type `Bool` is the constructor `True` or `False`.
mutual
  pub data Value : Type 0 where
    ctor : Text → Values → Value
    tuple : Values → Value
    list : Values → Value
    int : ℤ → Value
    float : ℕ → Value
    str : Text → Value
    char : ℕ → Value
    closure : Value

  pub data Values : Type 0 where
    nil : Values
    cons : Value → Values → Values

abbrev pub count_values : Values → ℕ
count_values Values.nil = 0
count_values (Values.cons v vs) = suc (count_values vs)

abbrev pub append_values : Values → Values → Values
append_values Values.nil ws = ws
append_values (Values.cons v vs) ws = Values.cons v (append_values vs ws)

int_eq : ℤ → ℤ → Bool
int_eq (pos m) (pos n) = m == n
int_eq (negsuc m) (negsuc n) = m == n
int_eq _ _ = false

unfoldable mutual
  unfolding int_eq

  pub matches : Pat → Value → Bool
  matches Pat.wild v = true
  matches (Pat.var _) v = true
  matches (Pat.bool b) (Value.ctor d vs) = text_eq (bool_name b) d && matches_all Pats.nil vs
  matches (Pat.ctor c ps) (Value.ctor d vs) = text_eq c d && matches_all ps vs
  matches (Pat.tuple ps) (Value.tuple vs) = matches_all ps vs
  matches (Pat.list ps) (Value.list vs) = matches_all ps vs
  matches (Pat.int m) (Value.int n) = int_eq m n
  matches (Pat.float m) (Value.float n) = m == n
  matches (Pat.str s) (Value.str t) = text_eq s t
  matches (Pat.char m) (Value.char n) = m == n
  matches _ _ = false

  pub matches_all : Pats → Values → Bool
  matches_all Pats.nil Values.nil = true
  matches_all (Pats.cons p ps) (Values.cons v vs) = matches p v && matches_all ps vs
  matches_all _ _ = false

-- How a declared constructor's written types are read at a type of its owner.
bound : List Text → Ts → Text → T
bound (q ∷ qs) (Ts.cons t ts) n = if text_eq q n then t else bound qs ts n
bound _ _ n = T.con n Ts.nil

abbrev normalise : Text → Text
normalise n = if text_eq n (codes "Nat") || text_eq n (codes "Size") then codes "U64" else n

unfoldable mutual
  unfolding bound

  pub instantiate : List Text → Ts → Ty → T
  instantiate qs as' (Ty.con n ts) = T.con (normalise n) (instantiate_all qs as' ts)
  instantiate qs as' (Ty.var n) = bound qs as' n
  instantiate qs as' (Ty.fun a b) = T.fun (instantiate qs as' a) (instantiate qs as' b)
  instantiate qs as' (Ty.ref t) = instantiate qs as' t
  instantiate qs as' (Ty.eff t) = T.eff (instantiate qs as' t)
  instantiate qs as' (Ty.tuple ts) = T.tuple (instantiate_all qs as' ts)

  pub instantiate_all : List Text → Ts → Tys → Ts
  instantiate_all qs as' Tys.nil = Ts.nil
  instantiate_all qs as' (Tys.cons t ts) =
      Ts.cons (instantiate qs as' t) (instantiate_all qs as' ts)

-- How a type is taken apart by a pattern.
pub data View : Type 0 where
  bools : View
  variants : Text → List Text → Ts → View
  tuples : Ts → View
  lists : T → View
  other : View

element : Ts → T
element (Ts.cons t _) = t
element Ts.nil = T.con [] Ts.nil

unfoldable pub con_view : Text → Ts → Option (List Text) → View
unfolding element
con_view n ts (some vs) = View.variants n vs ts
con_view n ts none = if text_eq n (codes "Vec") then View.lists (element ts) else View.other

module _ (d : Data) where
  unfoldable pub view : T → View
  unfolding con_view
  view (T.con n ts) = if text_eq n (codes "Bool") then View.bools else con_view n ts (d.variants n)
  view (T.tuple ts) = View.tuples ts
  view _ = View.other

abbrev pub count_ts : Ts → ℕ
count_ts Ts.nil = 0
count_ts (Ts.cons t ts) = suc (count_ts ts)

abbrev pub append_ts : Ts → Ts → Ts
append_ts Ts.nil us = us
append_ts (Ts.cons t ts) us = Ts.cons t (append_ts ts us)

abbrev pub replicate : ℕ → T → Ts
replicate zero t = Ts.nil
replicate (suc n) t = Ts.cons t (replicate n t)

-- The head of a value and the values under it; a literal and a function have none.
unfoldable pub splits : Value → Option (Head × Values)
splits (Value.ctor c us) = some (Head.ctor c, us)
splits (Value.tuple us) = some (Head.tuple (count_values us), us)
splits (Value.list us) = some (Head.list (count_values us), us)
splits _ = none

module _ (debug : Pat → Text) (d : Data) where
  -- `h` is a head of the type `t`, with these types under it.
  pub data Fields (t : T) : Head → Ts → Type 0 where
    bool :
        {c : Text} → view d t ≡ View.bools → is_bool_name c ≡ true → Fields t (Head.ctor c) Ts.nil
    ctor :
        {c owner : Text} {vs : List Text} {as' : Ts} {info : CtorInfo}
        → view d t ≡ View.variants owner vs as'
        → d.ctors c ≡ some info
        → info.owner ≡ owner
        → contains vs c ≡ true
        → is_bool_name c ≡ false
        → Fields t (Head.ctor c) (instantiate_all info.params as' info.args)
    tuple :
        {n : ℕ} {ts : Ts} → view d t ≡ View.tuples ts → count_ts ts ≡ n → Fields t (Head.tuple n) ts
    list : {u : T} → view d t ≡ View.lists u → (n : ℕ) → Fields t (Head.list n) (replicate n u)
    lit : {s : Text} → view d t ≡ View.other → Fields t (Head.lit s) Ts.nil

  mutual
    pub data PatTy : Pat → T → Type 0 where
      any : {p : Pat} {t : T} → head debug p ≡ none → PatTy p t
      headed :
          {p : Pat} {t : T} {h : Head} {ps : Pats} {fs : Ts}
          → head debug p ≡ some (h, ps)
          → Fields t h fs
          → PatsTy ps fs
          → PatTy p t

    pub data PatsTy : Pats → Ts → Type 0 where
      nil : PatsTy Pats.nil Ts.nil
      cons :
          {p : Pat} {ps : Pats} {t : T} {ts : Ts}
          → PatTy p t
          → PatsTy ps ts
          → PatsTy (Pats.cons p ps) (Ts.cons t ts)

  mutual
    pub data ValueTy : Value → T → Type 0 where
      atom : {v : Value} {t : T} → splits v ≡ none → view d t ≡ View.other → ValueTy v t
      split :
          {v : Value} {t : T} {h : Head} {us : Values} {fs : Ts}
          → splits v ≡ some (h, us)
          → Fields t h fs
          → ValuesTy us fs
          → ValueTy v t

    pub data ValuesTy : Values → Ts → Type 0 where
      nil : ValuesTy Values.nil Ts.nil
      cons :
          {v : Value} {vs : Values} {t : T} {ts : Ts}
          → ValueTy v t
          → ValuesTy vs ts
          → ValuesTy (Values.cons v vs) (Ts.cons t ts)
