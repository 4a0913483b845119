-- ===== src/View/Prints.antt =====
-- src/view.rs with src/lexer.rs: a type as `view` prints it is lexed to the tokens that spell it.
use vibelang.Base.{
  ℕ, Text, true, List, [], ◌∷◌, ◌++◌, codes, ◌≡◌, refl, sym, ap, ◌∙◌, append_assoc, Option-cases,
  inl, inr, and_true,
}
use vibelang.Ast.{Ty, Tys}
use vibelang.Lexer.{Tok}
use vibelang.Lexer.Spells.{Spells, blank}
use vibelang.Parser.Spelling.{
  Level, split_dot, split_dot-eq_some, name_tokens, tokens, arg_tokens, part_tokens, under_ref,
  parens,
}
use vibelang.View.Types.{print, arg_texts, part_texts, bracketed}
use vibelang.View.Spelled.{
  stops, is_ctor_word, ctor-Spells, name-Spells, open-Spells, close-Spells, comma-Spells,
  dot-Spells, arrow-Spells, eff-Spells, ref-Spells,
}
use vibelang.View.Printed.{is_type_name, IsPrinted, ArePrinted, NoAmpersand, print_first}

module _ (parse_f64 : Text → ℕ) where
  pub moved :
      {s s' : Text} {ts ts' : List Tok}
      → s ≡ s'
      → ts ≡ ts'
      → Spells parse_f64 s' ts'
      → Spells parse_f64 s ts
  moved e q w = rw (e, q) w

  type_name-Spells :
      (n rest : Text) (ts : List Tok)
      → is_type_name n ≡ true
      → stops rest ≡ true
      → Spells parse_f64 rest ts
      → Spells parse_f64 (n ++ rest) (name_tokens n ++ ts)
  unfolding name_tokens
  type_name-Spells n rest ts h s w = elim (Option-cases (split_dot n)) [
    | inl e ↦ rw e (ctor-Spells parse_f64 n rest (rw (is_type_name, e) at h) s w)
    | inr ((m, c), e) ↦
        let (u, v) = and_true (is_ctor_word m) (is_ctor_word c) (rw (is_type_name, e) at h) in
        rw e (
          moved
            (ap (λ (x : Text). x ++ rest) (sym (split_dot-eq_some n e))
              ∙ append_assoc m (b'.' ∷ c) rest)
            refl
            (ctor-Spells parse_f64 m (b'.' ∷ (c ++ rest)) u refl
              (dot-Spells parse_f64 (c ++ rest) (ctor-Spells parse_f64 c rest v s w))))
  ]

  bracketed-Spells :
      (s rest : Text) (us ts : List Tok)
      → Spells parse_f64 (s ++ b')' ∷ rest) (us ++ Tok.sym (codes ")") ∷ ts)
      → Spells parse_f64 (bracketed s ++ rest) (parens us ++ ts)
  bracketed-Spells s rest us ts w =
      open-Spells parse_f64 ((s ++ b')' ∷ []) ++ rest)
        (moved (append_assoc s (b')' ∷ []) rest) (append_assoc us (Tok.sym (codes ")") ∷ []) ts) w)

  -- A printer of texts and tokens that goes with any rest.
  abbrev pub Prints : Text → List Tok → Type 0
  Prints s us =
      (rest : Text) (ts : List Tok)
      → stops rest ≡ true
      → Spells parse_f64 rest ts
      → Spells parse_f64 (s ++ rest) (us ++ ts)

  in_brackets : (s : Text) (us : List Tok) → Prints s us → Prints (bracketed s) (parens us)
  in_brackets s us f rest ts h w =
      bracketed-Spells s rest us ts
        (f (b')' ∷ rest) (Tok.sym (codes ")") ∷ ts) refl (close-Spells parse_f64 rest w))

  then_Prints :
      (s t : Text) (us vs : List Tok)
      → ((rest : Text) → stops rest ≡ true → stops (t ++ rest) ≡ true)
      → Prints s us
      → Prints t vs
      → Prints (s ++ t) (us ++ vs)
  then_Prints s t us vs stop f g rest ts h w =
      moved (append_assoc s t rest) (append_assoc us vs ts)
        (f (t ++ rest) (vs ++ ts) (stop rest h) (g rest ts h w))

  arg_stops : (ts : Tys) (rest : Text) → stops rest ≡ true → stops (arg_texts ts ++ rest) ≡ true
  unfolding print
  arg_stops Tys.nil rest h = h
  arg_stops (Tys.cons t ts) rest h = refl

  part_stops : (ts : Tys) (rest : Text) → stops rest ≡ true → stops (part_texts ts ++ rest) ≡ true
  unfolding print
  part_stops Tys.nil rest h = h
  part_stops (Tys.cons t ts) rest h = refl

  arrow_Prints :
      (s : Text) (us : List Tok)
      → Prints s us
      → Prints (codes " -> " ++ s) (Tok.sym (codes "->") ∷ us)
  arrow_Prints s us f rest ts h w = arrow-Spells parse_f64 (s ++ rest) (f rest ts h w)

  eff_Prints :
      (s : Text) (us : List Tok)
      → Prints s us
      → Prints (codes "E! " ++ s) (Tok.sym (codes "E!") ∷ us)
  eff_Prints s us f rest ts h w = eff-Spells parse_f64 (s ++ rest) (f rest ts h w)

  ref_Prints :
      (s : Text) (us : List Tok)
      → NoAmpersand s
      → Prints s us
      → Prints (b'&' ∷ s) (Tok.sym (codes "&") ∷ us)
  ref_Prints s us (c, u, e, k) f rest ts h w =
      let e' : s ++ rest ≡ c ∷ (u ++ rest) = ap (λ (x : Text). x ++ rest) e in
      moved (ap (◌∷◌ b'&') e') refl
        (ref-Spells parse_f64 c (u ++ rest) k (moved (sym e') refl (f rest ts h w)))

  blank_Prints : (s : Text) (us : List Tok) → Prints s us → Prints (b' ' ∷ s) us
  blank_Prints s us f rest ts h w = blank (f rest ts h w)

  comma_Prints :
      (s : Text) (us : List Tok) → Prints s us → Prints (b',' ∷ b' ' ∷ s) (Tok.sym (codes ",") ∷ us)
  comma_Prints s us f rest ts h w = comma-Spells parse_f64 (s ++ rest) (f rest ts h w)

  con_Prints :
      (n : Text) (ts : Tys)
      → is_type_name n ≡ true
      → Prints (arg_texts ts) (arg_tokens ts)
      → Prints (n ++ arg_texts ts) (name_tokens n ++ arg_tokens ts)
  con_Prints n ts h =
      then_Prints n (arg_texts ts) (name_tokens n) (arg_tokens ts) (arg_stops ts)
        (λ rest us. type_name-Spells n rest us h)

  fun_Prints :
      (a b : Ty)
      → Prints (print Level.app a) (tokens Level.app a)
      → Prints (print Level.top b) (tokens Level.top b)
      → Prints
          (print Level.app a ++ (codes " -> " ++ print Level.top b))
          (tokens Level.app a ++ Tok.sym (codes "->") ∷ tokens Level.top b)
  fun_Prints a b f g =
      then_Prints (print Level.app a) (codes " -> " ++ print Level.top b) (tokens Level.app a)
        (Tok.sym (codes "->") ∷ tokens Level.top b) (λ rest h. refl) f
        (arrow_Prints (print Level.top b) (tokens Level.top b) g)

  eff_of :
      (t : Ty)
      → Prints (print Level.app t) (tokens Level.app t)
      → Prints (codes "E! " ++ print Level.app t) (Tok.sym (codes "E!") ∷ tokens Level.app t)
  eff_of t = eff_Prints (print Level.app t) (tokens Level.app t)

  parts_Prints :
      (t : Ty) (ts : Tys)
      → Prints (print Level.top t) (tokens Level.top t)
      → Prints (part_texts ts) (part_tokens ts)
      → Prints (print Level.top t ++ part_texts ts) (tokens Level.top t ++ part_tokens ts)
  parts_Prints t ts =
      then_Prints (print Level.top t) (part_texts ts) (tokens Level.top t) (part_tokens ts)
        (part_stops ts)

  args_Prints :
      (t : Ty) (ts : Tys)
      → Prints (print Level.atom t) (tokens Level.atom t)
      → Prints (arg_texts ts) (arg_tokens ts)
      → Prints (b' ' ∷ (print Level.atom t ++ arg_texts ts)) (tokens Level.atom t ++ arg_tokens ts)
  args_Prints t ts f g =
      blank_Prints (print Level.atom t ++ arg_texts ts) (tokens Level.atom t ++ arg_tokens ts) (
        then_Prints (print Level.atom t) (arg_texts ts) (tokens Level.atom t) (arg_tokens ts)
          (arg_stops ts) f g)

  mutual
    unfolding print tokens IsPrinted

    pub print-Prints : (l : Level) (t : Ty) → IsPrinted t → Prints (print l t) (tokens l t)
    print-Prints l (Ty.con n Tys.nil) (h, s) = λ rest ts. type_name-Spells n rest ts h
    print-Prints Level.top (Ty.con n (Tys.cons t ts)) (h, (s, r)) =
        con_Prints n (Tys.cons t ts) h
          (args_Prints t ts (print-Prints Level.atom t s) (arg-Prints ts r))
    print-Prints Level.app (Ty.con n (Tys.cons t ts)) (h, (s, r)) =
        con_Prints n (Tys.cons t ts) h
          (args_Prints t ts (print-Prints Level.atom t s) (arg-Prints ts r))
    print-Prints Level.atom (Ty.con n (Tys.cons t ts)) (h, (s, r)) =
        in_brackets (n ++ arg_texts (Tys.cons t ts)) (name_tokens n ++ arg_tokens (Tys.cons t ts)) (
          con_Prints n (Tys.cons t ts) h
            (args_Prints t ts (print-Prints Level.atom t s) (arg-Prints ts r)))
    print-Prints l (Ty.var n) s = λ rest ts h w. name-Spells parse_f64 n rest s h w
    print-Prints Level.top (Ty.fun a b) (s, r) =
        fun_Prints a b (print-Prints Level.app a s) (print-Prints Level.top b r)
    print-Prints Level.app (Ty.fun a b) (s, r) =
        in_brackets (print Level.app a ++ (codes " -> " ++ print Level.top b))
          (tokens Level.app a ++ Tok.sym (codes "->") ∷ tokens Level.top b)
          (fun_Prints a b (print-Prints Level.app a s) (print-Prints Level.top b r))
    print-Prints Level.atom (Ty.fun a b) (s, r) =
        in_brackets (print Level.app a ++ (codes " -> " ++ print Level.top b))
          (tokens Level.app a ++ Tok.sym (codes "->") ∷ tokens Level.top b)
          (fun_Prints a b (print-Prints Level.app a s) (print-Prints Level.top b r))
    print-Prints l (Ty.ref t) (h, s) =
        ref_Prints (print (under_ref l) t) (tokens (under_ref l) t) (print_first l t s h)
          (print-Prints (under_ref l) t s)
    print-Prints Level.top (Ty.eff t) s = eff_of t (print-Prints Level.app t s)
    print-Prints Level.app (Ty.eff t) s = eff_of t (print-Prints Level.app t s)
    print-Prints Level.atom (Ty.eff t) s =
        in_brackets (codes "E! " ++ print Level.app t) (Tok.sym (codes "E!") ∷ tokens Level.app t)
          (eff_of t (print-Prints Level.app t s))
    print-Prints l (Ty.tuple Tys.nil) s = elim s [ ]
    print-Prints l (Ty.tuple (Tys.cons t Tys.nil)) s = elim s [ ]
    print-Prints l (Ty.tuple (Tys.cons t (Tys.cons u us))) (s, (r, rs)) =
        in_brackets (print Level.top t ++ part_texts (Tys.cons u us))
          (tokens Level.top t ++ part_tokens (Tys.cons u us))
          (parts_Prints t (Tys.cons u us) (print-Prints Level.top t s) (
            comma_Prints (print Level.top u ++ part_texts us) (tokens Level.top u ++ part_tokens us)
              (parts_Prints u us (print-Prints Level.top u r) (part-Prints us rs))))

    arg-Prints : (ts : Tys) → ArePrinted ts → Prints (arg_texts ts) (arg_tokens ts)
    arg-Prints Tys.nil s = λ rest ts h w. w
    arg-Prints (Tys.cons t ts) (s, r) =
        args_Prints t ts (print-Prints Level.atom t s) (arg-Prints ts r)

    part-Prints : (ts : Tys) → ArePrinted ts → Prints (part_texts ts) (part_tokens ts)
    part-Prints Tys.nil s = λ rest ts h w. w
    part-Prints (Tys.cons t ts) (s, r) =
        comma_Prints (print Level.top t ++ part_texts ts) (tokens Level.top t ++ part_tokens ts)
          (parts_Prints t ts (print-Prints Level.top t s) (part-Prints ts r))
