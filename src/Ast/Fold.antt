-- ===== src/Ast/Fold.antt =====
-- Recursion over src/ast.rs's `Expr` by way of `children`, which the compiler's passes share: a
-- pass is given by what it does at a node with its results at the children.
use vibelang.Base.{List, [], ◌∷◌, ◌≡◌, refl, ap, map, In, here, there}
use vibelang.Ast.{Expr, Exprs, Arms, Inits, exprs, arm_bodies, init_values, children}

module _ {ℓ} {R : Type ℓ} (node : Expr → List R → R) where
  unfoldable mutual
    pub fold : Expr → R
    fold (Expr.binop s op a b) = node (Expr.binop s op a b) (fold a ∷ fold b ∷ [])
    fold (Expr.bind s n a b) = node (Expr.bind s n a b) (fold a ∷ fold b ∷ [])
    fold (Expr.local s n a b) = node (Expr.local s n a b) (fold a ∷ fold b ∷ [])
    fold (Expr.neg s i) = node (Expr.neg s i) (fold i ∷ [])
    fold (Expr.not s i) = node (Expr.not s i) (fold i ∷ [])
    fold (Expr.borrow s i) = node (Expr.borrow s i) (fold i ∷ [])
    fold (Expr.field s i n) = node (Expr.field s i n) (fold i ∷ [])
    fold (Expr.lambda s n i) = node (Expr.lambda s n i) (fold i ∷ [])
    fold (Expr.arena s n i) = node (Expr.arena s n i) (fold i ∷ [])
    fold (Expr.app s h args) = node (Expr.app s h args) (fold h ∷ fold_exprs args)
    fold (Expr.match s e arms) = node (Expr.match s e arms) (fold e ∷ fold_arms arms)
    fold (Expr.record_new s fields) = node (Expr.record_new s fields) (fold_inits fields)
    fold (Expr.record_with s b fields) =
        node (Expr.record_with s b fields) (fold b ∷ fold_inits fields)
    fold (Expr.tuple s xs) = node (Expr.tuple s xs) (fold_exprs xs)
    fold (Expr.list s xs) = node (Expr.list s xs) (fold_exprs xs)
    fold e = node e []

    pub fold_exprs : Exprs → List R
    fold_exprs Exprs.nil = []
    fold_exprs (Exprs.cons e es) = fold e ∷ fold_exprs es

    pub fold_arms : Arms → List R
    fold_arms Arms.no_arms = []
    fold_arms (Arms.arm p e arms) = fold e ∷ fold_arms arms

    pub fold_inits : Inits → List R
    fold_inits Inits.no_inits = []
    fold_inits (Inits.init f e fields) = fold e ∷ fold_inits fields

  fold_exprs-map : (es : Exprs) → fold_exprs es ≡ map fold (exprs es)
  unfolding fold
  fold_exprs-map Exprs.nil = refl
  fold_exprs-map (Exprs.cons e es) = ap (◌∷◌ (fold e)) (fold_exprs-map es)

  fold_arms-map : (arms : Arms) → fold_arms arms ≡ map fold (arm_bodies arms)
  unfolding fold
  fold_arms-map Arms.no_arms = refl
  fold_arms-map (Arms.arm p e arms) = ap (◌∷◌ (fold e)) (fold_arms-map arms)

  fold_inits-map : (fields : Inits) → fold_inits fields ≡ map fold (init_values fields)
  unfolding fold
  fold_inits-map Inits.no_inits = refl
  fold_inits-map (Inits.init f e fields) = ap (◌∷◌ (fold e)) (fold_inits-map fields)

  -- The equation of a pass.
  pub fold_lem : (e : Expr) → fold e ≡ node e (map fold (children e))
  unfolding fold children
  fold_lem (Expr.app s h args) = rw (fold_exprs-map args)
  fold_lem (Expr.match s e arms) = rw (fold_arms-map arms)
  fold_lem (Expr.record_new s fields) = rw (fold_inits-map fields)
  fold_lem (Expr.record_with s b fields) = rw (fold_inits-map fields)
  fold_lem (Expr.tuple s xs) = rw (fold_exprs-map xs)
  fold_lem (Expr.list s xs) = rw (fold_exprs-map xs)
  fold_lem e = refl

-- A property of every expression in a list, as a tuple.
abbrev Every {ℓ} : (Expr → Type ℓ) → List Expr → Type ℓ
Every P [] = Unit
Every P (e ∷ es) = P e × Every P es

Every-In {ℓ} : (P : Expr → Type ℓ) {e : Expr} {es : List Expr} → Every P es → In e es → P e
Every-In P h here = h.0
Every-In P h (there m) = Every-In P h.1 m

module _ {ℓ} (P : Expr → Type ℓ)
    (step : (e : Expr) → ((c : Expr) → In c (children e) → P c) → P e) where
  from_children : (e : Expr) → Every P (children e) → P e
  from_children e h = step e (λ c m. Every-In P h m)

  mutual
    unfolding children

    -- Induction over the children.
    pub Expr-induction : (e : Expr) → P e
    Expr-induction (Expr.binop s op a b) =
        from_children (Expr.binop s op a b) (Expr-induction a, (Expr-induction b, tt))
    Expr-induction (Expr.bind s n a b) =
        from_children (Expr.bind s n a b) (Expr-induction a, (Expr-induction b, tt))
    Expr-induction (Expr.local s n a b) =
        from_children (Expr.local s n a b) (Expr-induction a, (Expr-induction b, tt))
    Expr-induction (Expr.neg s i) = from_children (Expr.neg s i) (Expr-induction i, tt)
    Expr-induction (Expr.not s i) = from_children (Expr.not s i) (Expr-induction i, tt)
    Expr-induction (Expr.borrow s i) = from_children (Expr.borrow s i) (Expr-induction i, tt)
    Expr-induction (Expr.field s i n) = from_children (Expr.field s i n) (Expr-induction i, tt)
    Expr-induction (Expr.lambda s n i) = from_children (Expr.lambda s n i) (Expr-induction i, tt)
    Expr-induction (Expr.arena s n i) = from_children (Expr.arena s n i) (Expr-induction i, tt)
    Expr-induction (Expr.app s h args) =
        from_children (Expr.app s h args) (Expr-induction h, Every-expr args)
    Expr-induction (Expr.match s e arms) =
        from_children (Expr.match s e arms) (Expr-induction e, Every-arm arms)
    Expr-induction (Expr.record_new s fields) =
        from_children (Expr.record_new s fields) (Every-init fields)
    Expr-induction (Expr.record_with s b fields) =
        from_children (Expr.record_with s b fields) (Expr-induction b, Every-init fields)
    Expr-induction (Expr.tuple s xs) = from_children (Expr.tuple s xs) (Every-expr xs)
    Expr-induction (Expr.list s xs) = from_children (Expr.list s xs) (Every-expr xs)
    Expr-induction e = from_children e tt

    Every-expr : (es : Exprs) → Every P (exprs es)
    Every-expr Exprs.nil = tt
    Every-expr (Exprs.cons e es) = (Expr-induction e, Every-expr es)

    Every-arm : (arms : Arms) → Every P (arm_bodies arms)
    Every-arm Arms.no_arms = tt
    Every-arm (Arms.arm p e arms) = (Expr-induction e, Every-arm arms)

    Every-init : (fields : Inits) → Every P (init_values fields)
    Every-init Inits.no_inits = tt
    Every-init (Inits.init f e fields) = (Expr-induction e, Every-init fields)
