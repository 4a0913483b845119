-- ===== src/Ast.antt =====
-- src/ast.rs: the abstract syntax. `Expr` holds its span as the first argument of every
-- constructor (the source's `Expr { kind, span }`), a literal of `f64` is its bit pattern, and a
-- list inside a type that holds itself is a type of its own (`Tys`, `Pats`, `Exprs`, `Arms`,
-- `Inits`).
pub mod Fold
pub mod Names
mod Examples
use vibelang.Base.{ℕ, Text, Bool, Option, List, [], ◌∷◌, ◌++◌, codes}
use vibelang.Base.Int.{ℤ}
use vibelang.Diag.{Span}

mutual
  pub data Ty : Type 0 where
    con : Text → Tys → Ty
    var : Text → Ty
    fun : Ty → Ty → Ty
    ref : Ty → Ty
    eff : Ty → Ty
    tuple : Tys → Ty

  pub data Tys : Type 0 where
    nil : Tys
    cons : Ty → Tys → Tys

-- `Ty::unit`.
abbrev pub unit_ty : Ty
unit_ty = Ty.con (codes "Unit") Tys.nil

mutual
  pub data Pat : Type 0 where
    wild : Pat
    var : Text → Pat
    int : ℤ → Pat
    float : ℕ → Pat
    str : Text → Pat
    char : ℕ → Pat
    bool : Bool → Pat
    ctor : Text → Pats → Pat
    list : Pats → Pat
    tuple : Pats → Pat

  pub data Pats : Type 0 where
    nil : Pats
    cons : Pat → Pats → Pats

mutual
  pub data Expr : Type 0 where
    int : Span → ℤ → Expr
    float : Span → ℕ → Expr
    str : Span → Text → Expr
    char : Span → ℕ → Expr
    bool : Span → Bool → Expr
    unit : Span → Expr
    var : Span → Text → Expr
    ctor : Span → Text → Expr
    app : Span → Expr → Exprs → Expr
    binop : Span → Text → Expr → Expr → Expr
    neg : Span → Expr → Expr
    not : Span → Expr → Expr
    match : Span → Expr → Arms → Expr
    bind : Span → Text → Expr → Expr → Expr
    local : Span → Text → Expr → Expr → Expr
    lambda : Span → List Text → Expr → Expr
    record_new : Span → Inits → Expr
    record_with : Span → Expr → Inits → Expr
    field : Span → Expr → Text → Expr
    borrow : Span → Expr → Expr
    arena : Span → Text → Expr → Expr
    tuple : Span → Exprs → Expr
    list : Span → Exprs → Expr

  pub data Exprs : Type 0 where
    nil : Exprs
    cons : Expr → Exprs → Exprs

  pub data Arms : Type 0 where
    no_arms : Arms
    arm : Pat → Expr → Arms → Arms

  pub data Inits : Type 0 where
    no_inits : Inits
    init : Text → Expr → Inits → Inits

unfoldable pub span_of : Expr → Span
span_of (Expr.int s _) = s
span_of (Expr.float s _) = s
span_of (Expr.str s _) = s
span_of (Expr.char s _) = s
span_of (Expr.bool s _) = s
span_of (Expr.unit s) = s
span_of (Expr.var s _) = s
span_of (Expr.ctor s _) = s
span_of (Expr.app s _ _) = s
span_of (Expr.binop s _ _ _) = s
span_of (Expr.neg s _) = s
span_of (Expr.not s _) = s
span_of (Expr.match s _ _) = s
span_of (Expr.bind s _ _ _) = s
span_of (Expr.local s _ _ _) = s
span_of (Expr.lambda s _ _) = s
span_of (Expr.record_new s _) = s
span_of (Expr.record_with s _ _) = s
span_of (Expr.field s _ _) = s
span_of (Expr.borrow s _) = s
span_of (Expr.arena s _ _) = s
span_of (Expr.tuple s _) = s
span_of (Expr.list s _) = s

abbrev pub exprs : Exprs → List Expr
exprs Exprs.nil = []
exprs (Exprs.cons e es) = e ∷ exprs es

abbrev pub arm_bodies : Arms → List Expr
arm_bodies Arms.no_arms = []
arm_bodies (Arms.arm p e as') = e ∷ arm_bodies as'

abbrev pub init_values : Inits → List Expr
init_values Inits.no_inits = []
init_values (Inits.init f e fs) = e ∷ init_values fs

-- `Expr::children`: what the callback is called on, in order.
unfoldable pub children : Expr → List Expr
children (Expr.app _ h args) = h ∷ exprs args
children (Expr.binop _ _ a b) = a ∷ b ∷ []
children (Expr.bind _ _ a b) = a ∷ b ∷ []
children (Expr.local _ _ a b) = a ∷ b ∷ []
children (Expr.neg _ i) = i ∷ []
children (Expr.not _ i) = i ∷ []
children (Expr.borrow _ i) = i ∷ []
children (Expr.field _ i _) = i ∷ []
children (Expr.lambda _ _ i) = i ∷ []
children (Expr.arena _ _ i) = i ∷ []
children (Expr.match _ s arms) = s ∷ arm_bodies arms
children (Expr.record_new _ fields) = init_values fields
children (Expr.record_with _ b fields) = b ∷ init_values fields
children (Expr.tuple _ xs) = exprs xs
children (Expr.list _ xs) = exprs xs
children _ = []

pub record Param : Type 0 where
  pub names : List Text
  pub ty : Option Ty
  pub refines : List Expr
  pub span : Span

pub record FunDecl : Type 0 where
  pub name : Text
  pub home : Text
  pub ghost : Bool
  pub params : List Param
  pub ret : Option Ty
  pub body : Expr
  pub measure : Option Expr
  pub span : Span

pub record RecordDef : Type 0 where
  pub fields : List (Text × Ty)
  pub refines : List Expr

pub record VariantDef : Type 0 where
  pub name : Text
  pub args : Tys

pub data TypeBody : Type 0 where
  record_of : RecordDef → TypeBody
  variants : List VariantDef → TypeBody
  opaque : TypeBody

pub record TypeDecl : Type 0 where
  pub name : Text
  pub home : Text
  pub params : List Text
  pub body : TypeBody
  pub span : Span

pub record ExtSig : Type 0 where
  pub name : Text
  pub symbol : Text
  pub ty : Ty
  pub refines : List Expr
  pub span : Span

pub record ExtBlock : Type 0 where
  pub header : Text
  pub links : List Text
  pub pkgs : List Text
  pub sigs : List ExtSig
  pub types : List TypeDecl
  pub span : Span

pub data Decl : Type 0 where
  type_decl : TypeDecl → Decl
  fun_decl : FunDecl → Decl
  ext : ExtBlock → Decl
  exp : List Text → Span → Decl

pub record Module : Type 0 where
  pub name : Text
  pub decls : List Decl
  pub span : Span
