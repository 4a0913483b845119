-- ===== src/Lexer/Position.antt =====
-- src/lexer.rs with src/patch.rs: the lexer's line and the start of it are those that `line_starts` has.
use vibelang.Base.{
  ℕ, zero, suc, ◌+◌, ◌≤◌, Text, false, some, List, [], ◌∷◌, ◌++◌, ◌≡◌, refl, sym, ap, ◌∙◌, subst,
  arith, ◌==◌, length, get_elem?, drop, length-drop, drop-drop, drop-suc, get_elem?-drop,
  Bool-cases, inl, inr, not_true, Covers, no_items, one_more, Covers-le-length, Covers-count_while,
}
use vibelang.Lexer.Scan.Words.{in_line}
use vibelang.Lexer.Run.{
  Lexer, Comment, rest_of, advance, space, blank_at, comment_length, comment_at, skip_blank,
  next_line, span,
}
use vibelang.Lexer.Ends.{Blank-cases}
use vibelang.Patch.{starts_after, line_starts, line_start, offset}

-- The lexer stands on line `k + 1`, whose start it knows.
pub record At (src : Text) (file : ℕ) (l : Lexer) : Type 0 where
  pub same_src : l.src ≡ src
  pub k : ℕ
  pub same_line : l.line ≡ suc k
  pub starts : drop k (line_starts src) ≡ l.line_start ∷ starts_after l.pos (drop l.pos src)
  pub after_start : l.line_start ≤ l.pos
  pub inside : l.pos ≤ length src

starts_after-Covers :
    {n : ℕ} {s : Text} (i : ℕ)
    → Covers in_line n s
    → starts_after i s ≡ starts_after (i + n) (drop n s)
unfolding starts_after
starts_after-Covers {s} i no_items = ap (λ (j : ℕ). starts_after j s) (omega arith)
starts_after-Covers i (one_more {x} {xs} {n} h c) =
    let e : (x == 10) ≡ false = not_true (x == 10) h in
    rw e (starts_after-Covers (suc i) c ∙ ap (λ (j : ℕ). starts_after j (drop n xs)) (omega arith))

space-Covers : (rest : Text) → blank_at rest ≡ space → Covers in_line 1 rest
unfolding blank_at
space-Covers [] h = absurd (cc h)
space-Covers (c ∷ rest) h = elim (Bool-cases (c == 10)) [
  | inl y ↦ let e : c ≡ 10 = ground (arith, y) in absurd (cc (rw e at h))
  | inr n ↦ one_more (rw n refl) no_items
]

module _ (src : Text) (file : ℕ) where
  pub advance-At :
      (l : Lexer) (n : ℕ) (cs : List Comment)
      → At src file l
      → Covers in_line n (rest_of l)
      → At src file (record l { pos = l.pos + n; comments = cs })
  advance-At l n cs a c =
      let c' : Covers in_line n (drop l.pos src) = rw a.same_src at c in
      record {
        same_src = a.same_src;
        k = a.k;
        same_line = a.same_line;
        starts =
            a.starts
            ∙ ap (◌∷◌ l.line_start) (
                starts_after-Covers l.pos c'
                ∙ ap (starts_after (l.pos + n)) (sym (drop-drop l.pos n src)));
        after_start = omega (arith, a.after_start);
        inside = omega (arith, a.inside, Covers-le-length c', length-drop l.pos src);
      }

  pub next_line-At :
      (l : Lexer) (rest : Text) → At src file l → rest_of l ≡ 10 ∷ rest → At src file (next_line l)
  unfolding starts_after
  next_line-At l rest a e =
      let e' : drop l.pos src ≡ 10 ∷ rest = rw a.same_src at e in
      let after : drop (suc l.pos) src ≡ rest = drop-suc l.pos src ∙ ap (drop 1) e' in
      record {
        same_src = a.same_src;
        k = suc a.k;
        same_line = ap suc a.same_line;
        starts =
            drop-suc a.k (line_starts src)
            ∙ ap (drop 1) (a.starts ∙ ap (λ (t : Text). l.line_start ∷ starts_after l.pos t) e')
            ∙ ap (λ (t : Text). suc l.pos ∷ starts_after (suc l.pos) t) (sym after);
        after_start = omega arith;
        inside = omega (arith, length-drop l.pos src, ap length e');
      }

  -- Where the offset of a span comes to.
  pub offset-span :
      (l : Lexer) (end : ℕ) → At src file l → offset (line_starts src) (span l l.pos end) ≡ l.pos
  unfolding offset line_start line_starts
  offset-span l end a =
      let e : get_elem? (line_starts src) a.k ≡ some l.line_start =
        get_elem?-drop a.k (line_starts src) a.starts in
      rw (a.same_line, e) (omega (arith, a.after_start))

  pub skip_blank-At :
      (f : ℕ) (l : Lexer) (after : ℕ) {l' : Lexer}
      → At src file l
      → skip_blank f l after ≡ some l'
      → At src file l'
  unfolding skip_blank
  skip_blank-At zero l after a h = absurd (cc h)
  skip_blank-At (suc f) l after {l'} a h = elim (Blank-cases (blank_at (rest_of l))) [
    | inl b ↦
        skip_blank-At f (advance 1 l) after
          (advance-At l 1 l.comments a (space-Covers (rest_of l) b)) (rw (skip_blank, b) at h)
    | inr (inl b) ↦
        skip_blank-At f _ after
          (advance-At l (comment_length (rest_of l)) (l.comments ++ comment_at l after ∷ []) a
            (Covers-count_while in_line (rest_of l)))
          (rw (skip_blank, b) at h)
    | inr (inr b) ↦ let e : l ≡ l' = cc (rw (skip_blank, b) at h) in subst (At src file) e a
  ]
