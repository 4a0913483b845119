-- ===== src/Types/Exhaustive/Examples.antt =====
-- src/types.rs, exhaustiveness on a match over the prelude's `Opt`.
use vibelang.Base.{
  Text, Bool, true, false, none, some, List, [], ◌∷◌, codes, ◌≡◌, ◌≤◌, refl, here, any, contains,
  text_eq, if◌then◌else◌, arith,
}
use vibelang.Base.Int.{pos}
use vibelang.Diag.{Span, Diag, error, with_path}
use vibelang.Ast.{Ty, Tys, Pat, Pats}
use vibelang.Types.{T, Ts, CtorInfo, Data, constant}
use vibelang.Types.Exhaustive.{Head, Rows, wilds, head, useful}
use vibelang.Types.Exhaustive.Values.{
  Value, Values, matches, Fields, PatTy, PatsTy, ValueTy, ValuesTy, view, splits, instantiate,
}
use vibelang.Types.Exhaustive.Specialise.{some_match}
use vibelang.Types.Exhaustive.Sound.{useful_sound}
use vibelang.Types.Exhaustive.Fuel.{nodes_rows, useful_total}
use vibelang.Types.Exhaustive.Check.{
  Pending, AllPatTy, check_exhaustiveness, check_exhaustiveness-covers, check_exhaustiveness-total,
}

abbrev nowhere : Span
nowhere = record { file = 0; line = 1; col = 1; len = 1 }

abbrev debug : Pat → Text
debug p = codes "?"

-- `type Opt t = Some t | None`.
abbrev some_info : CtorInfo
some_info = record {
  owner = codes "Opt";
  params = codes "t" ∷ [];
  args = Tys.cons (Ty.var (codes "t")) Tys.nil;
  tag = 0;
}

abbrev none_info : CtorInfo
none_info = record { owner = codes "Opt"; params = codes "t" ∷ []; args = Tys.nil; tag = 1 }

abbrev opt_names : List Text
opt_names = codes "Some" ∷ codes "None" ∷ []

abbrev opt_data : Data
opt_data = record {
  records = λ n. none;
  ctors = λ n.
      if text_eq n (codes "Some")
      then some some_info
      else if text_eq n (codes "None")
      then some none_info
      else none;
  variants = λ n. if text_eq n (codes "Opt") then some opt_names else none;
  field_owner = λ n. none;
  field_ambiguous = λ n. false;
}

abbrev opt_u64 : T
opt_u64 = T.con (codes "Opt") (Ts.cons (constant "U64") Ts.nil)

abbrev none_pat : Pat
none_pat = Pat.ctor (codes "None") Pats.nil

abbrev some_pat : Pat
some_pat = Pat.ctor (codes "Some") (Pats.cons (Pat.var (codes "n")) Pats.nil)

abbrev both : Pending
both = record {
  span = nowhere;
  scrut = opt_u64;
  pats = none_pat ∷ some_pat ∷ [];
  path = codes "Demo.f";
}

abbrev only_some : Pending
only_some = record { span = nowhere; scrut = opt_u64; pats = some_pat ∷ []; path = codes "Demo.f" }

both_accepted : check_exhaustiveness debug opt_data (both ∷ []) ≡ some []
unfolding check_exhaustiveness text_eq
both_accepted = refl

only_some_refused :
    check_exhaustiveness debug opt_data (only_some ∷ [])
    ≡ some (with_path (codes "Demo.f.match") (error nowhere (codes "match.nonexhaustive")) ∷ [])
unfolding check_exhaustiveness text_eq
only_some_refused = refl

none_Fields : Fields debug opt_data opt_u64 (Head.ctor (codes "None")) Ts.nil
unfolding view instantiate text_eq head splits contains
none_Fields = Fields.ctor refl refl refl refl refl

some_Fields :
    Fields debug opt_data opt_u64 (Head.ctor (codes "Some")) (Ts.cons (constant "U64") Ts.nil)
unfolding view instantiate text_eq head splits contains
some_Fields = Fields.ctor {info = some_info} refl refl refl refl refl

both_AllPatTy : AllPatTy debug opt_data both.pats opt_u64
unfolding view instantiate text_eq head splits contains
both_AllPatTy = (
  PatTy.headed refl none_Fields PatsTy.nil,
  (PatTy.headed refl some_Fields (PatsTy.cons (PatTy.any refl) PatsTy.nil), tt),
)

abbrev some_seven : Value
some_seven = Value.ctor (codes "Some") (Values.cons (Value.int (pos 7)) Values.nil)

some_seven-ValueTy : ValueTy debug opt_data some_seven opt_u64
unfolding view instantiate text_eq head splits contains
some_seven-ValueTy =
    ValueTy.split refl some_Fields (ValuesTy.cons (ValueTy.atom refl refl) ValuesTy.nil)

check_exhaustiveness-covers_example : any (λ p. matches p some_seven) both.pats ≡ true
check_exhaustiveness-covers_example =
    check_exhaustiveness-covers debug opt_data (both ∷ []) both some_seven both_accepted here
      both_AllPatTy some_seven-ValueTy

check_exhaustiveness-total_example :
    (ds : List Diag) × (check_exhaustiveness debug opt_data (both ∷ only_some ∷ []) ≡ some ds)
check_exhaustiveness-total_example =
    check_exhaustiveness-total debug opt_data (both ∷ only_some ∷ [])

abbrev column : Rows
column = Pats.cons none_pat Pats.nil ∷ Pats.cons some_pat Pats.nil ∷ []

column_useless : useful debug opt_data 3 column (wilds 1) ≡ some false
unfolding useful text_eq
column_useless = refl

useful_sound_example : some_match debug opt_data column (Values.cons some_seven Values.nil) ≡ true
useful_sound_example =
    useful_sound debug opt_data 3 1 column (Values.cons some_seven Values.nil)
      (Ts.cons opt_u64 Ts.nil)
      (PatsTy.cons both_AllPatTy.0 PatsTy.nil, (PatsTy.cons both_AllPatTy.1.0 PatsTy.nil, tt))
      (ValuesTy.cons some_seven-ValueTy ValuesTy.nil) refl column_useless

column_small : nodes_rows column ≤ 5
unfolding nodes_rows
column_small = omega arith

useful_total_example : (b : Bool) × (useful debug opt_data 5 column (wilds 1) ≡ some b)
useful_total_example = useful_total debug opt_data 5 1 column column_small
