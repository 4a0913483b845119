-- ===== src/Types.antt =====
-- src/types.rs: inference types, the tables of declared data, and the names that the checker knows.
pub mod Exhaustive
pub mod Unify
pub mod Distance
pub mod Scheme
use vibelang.Base.{
  ℕ, Text, Bool, true, false, Option, none, some, List, [], ◌∷◌, ◌++◌, codes, contains, text_eq,
  join, decimal, length, String, ◌||◌, map,
}
use vibelang.Ast.{Ty, Tys, Expr}

mutual
  pub data T : Type 0 where
    var : ℕ → T
    con : Text → Ts → T
    fun : T → T → T
    tuple : Ts → T
    eff : T → T

  pub data Ts : Type 0 where
    nil : Ts
    cons : T → Ts → Ts

-- `T::con` and `T::unit`.
abbrev pub constant : String → T
constant n = T.con (codes n) Ts.nil

abbrev pub unit_t : T
unit_t = constant "Unit"

abbrev pub is_nil : Ts → Bool
is_nil Ts.nil = true
is_nil (Ts.cons _ _) = false

bracketed : Bool → Text → Text
bracketed true s = codes "(" ++ (s ++ codes ")")
bracketed false s = s

-- `T::show`; the flag asks for `show_atom`.
mutual
  unfolding bracketed

  pub show : Bool → T → Text
  show atom (T.var i) = codes "t" ++ decimal i
  show atom (T.con n Ts.nil) = n
  show atom (T.con n (Ts.cons t ts)) =
      bracketed atom (n ++ (codes " " ++ join (codes " ") (show true t ∷ shows true ts)))
  show atom (T.fun a b) = bracketed atom (show true a ++ (codes " -> " ++ show false b))
  show atom (T.tuple ts) = codes "(" ++ (join (codes ", ") (shows false ts) ++ codes ")")
  show atom (T.eff t) = bracketed atom (codes "E! " ++ show true t)

  pub shows : Bool → Ts → List Text
  shows atom Ts.nil = []
  shows atom (Ts.cons t ts) = show atom t ∷ shows atom ts

abbrev pub int_types : List Text
int_types = map codes ("U8" ∷ "U16" ∷ "U32" ∷ "U64" ∷ "I8" ∷ "I16" ∷ "I32" ∷ "I64" ∷ [])

abbrev pub float_types : List Text
float_types = map codes ("F32" ∷ "F64" ∷ [])

-- `is_num` and `is_scalar_name`.
unfoldable pub is_num : Text → Bool
is_num n = contains int_types n || contains float_types n

unfoldable pub is_scalar_name : Text → Bool
unfolding is_num
is_scalar_name n =
    is_num n
    || contains (map codes ("Bool" ∷ "Char" ∷ "Unit" ∷ "Nat" ∷ "Size" ∷ "CStr" ∷ "Ptr" ∷ [])) n

pub record RecordInfo : Type 0 where
  pub name : Text
  pub fields : List (Text × Ty)
  pub refines : List Expr

pub record CtorInfo : Type 0 where
  pub owner : Text
  pub params : List Text
  pub args : Tys
  pub tag : ℕ

-- A hash map is its lookup.
pub record Data : Type 0 where
  pub records : Text → Option RecordInfo
  pub ctors : Text → Option CtorInfo
  pub variants : Text → Option (List Text)
  pub field_owner : Text → Option Text
  pub field_ambiguous : Text → Bool
