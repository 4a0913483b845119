-- ===== src/Patch/Slices.antt =====
-- src/patch.rs: the ends that `decl_end` and `split_head` find, as positions of the source.
use vibelang.Base.{
  ℕ, zero, suc, ◌+◌, ◌-◌, ◌≤◌, ◌<◌, Text, false, Option, none, some, [], ◌∷◌, ◌++◌, ◌≡◌, refl, sym,
  ap, ◌∙◌, arith, ◌==◌, length, get_or, get_elem?, take, drop, count_while, Bool-cases,
  Option-cases, inl, inr, length-drop, length-take, last?, last?-take, get_or-drop, take-append,
  take-drop, append_assoc, length-append, Covers-le-length, Covers-count_while,
}
use native.Mathlib.Decide.{dec_le}
use vibelang.Lexer.Run.{trim_end}
use vibelang.Patch.{
  starts_after, line_starts, line_start, before_newlines, next_start, decl_end, find_equals,
  split_head, bare_equals, is_gap,
}
use vibelang.Patch.Trims.{NoNewlineLast, trim_end-front, trim_end-last}

starts_after-le :
    (i : ℕ) (s : Text) (k : ℕ) {b : ℕ} → get_elem? (starts_after i s) k ≡ some b → b ≤ i + length s
unfolding starts_after
starts_after-le i [] zero e = ground (arith, e)
starts_after-le i [] (suc k) e = cc e
starts_after-le i (c ∷ s) k {b} e = elim (Bool-cases (c == 10)) [
  | inr n ↦ omega (arith, starts_after-le (suc i) s k (rw (starts_after, n) at e))
  | inl y ↦ in_first k (λ (j d : ℕ) q. starts_after-le (suc i) s j q) (rw (starts_after, y) at e)
]
  where
    in_first :
        (k : ℕ)
        → ((j : ℕ) (d : ℕ) → get_elem? (starts_after (suc i) s) j ≡ some d → d ≤ suc i + length s)
        → get_elem? (suc i ∷ starts_after (suc i) s) k ≡ some b
        → b ≤ i + suc (length s)
    in_first zero ih q = ground (arith, q)
    in_first (suc j) ih q = omega (arith, ih j b q)

line_start-le :
    (src : Text) (line : ℕ) {b : ℕ} → line_start (line_starts src) line ≡ some b → b ≤ length src
unfolding line_start line_starts
line_start-le src zero e = cc e
line_start-le src (suc zero) e = ground (arith, e)
line_start-le src (suc (suc k)) e = omega (arith, starts_after-le 0 src k e)

next_start-le : (src : Text) (next : Option ℕ) → next_start src (line_starts src) next ≤ length src
unfolding next_start
next_start-le src none = omega arith
next_start-le src (some l) = elim (Option-cases (line_start (line_starts src) l)) [
  | inl e ↦ rw (next_start, e) (omega arith)
  | inr (b, e) ↦ rw (next_start, e) (line_start-le src l e)
]

before_newlines-le : (src : Text) (n : ℕ) → before_newlines src n ≤ n
unfolding before_newlines
before_newlines-le src zero = omega arith
before_newlines-le src (suc n) = elim (Bool-cases (get_or src n 0 == 10)) [
  | inl y ↦ rw (before_newlines, y) (omega (arith, before_newlines-le src n))
  | inr m ↦ rw (before_newlines, m) (omega arith)
]

before_newlines-last :
    (src : Text) (n : ℕ) {k : ℕ} → before_newlines src n ≡ suc k → (get_or src k 0 == 10) ≡ false
unfolding before_newlines
before_newlines-last src zero e = cc e
before_newlines-last src (suc n) {k} e = elim (Bool-cases (get_or src n 0 == 10)) [
  | inl y ↦ before_newlines-last src n (rw (before_newlines, y) at e)
  | inr m ↦
      let e' : suc n ≡ suc k = rw (before_newlines, m) at e in
      let same : n ≡ k = omega arith in rw (← same) m
]

pub decl_end-le : (src : Text) (next : Option ℕ) → decl_end src (line_starts src) next ≤ length src
unfolding decl_end
decl_end-le src next =
    omega (
      arith,
      before_newlines-le src (next_start src (line_starts src) next),
      next_start-le src next,
    )

-- What lies between two positions.
abbrev pub between : ℕ → ℕ → Text → Text
between start end src = take (end - start) (drop start src)

pub length-between :
    (start end : ℕ) (src : Text) → end ≤ length src → length (between start end src) ≡ end - start
length-between start end src h =
    length-take (end - start) (drop start src) (omega (arith, length-drop start src))

get_elem?-get_or : (n : ℕ) (s : Text) {c : ℕ} → get_elem? s n ≡ some c → get_or s n 0 ≡ c
get_elem?-get_or n [] e = cc e
get_elem?-get_or zero (x ∷ s) e = cc e
get_elem?-get_or (suc n) (x ∷ s) e = get_elem?-get_or n s e

between-last :
    (start k : ℕ) (src : Text)
    → start ≤ k
    → k < length src
    → (get_or src k 0 == 10) ≡ false
    → NoNewlineLast (between start (suc k) src)
between-last start k src h inside m e =
    let n : suc k - start ≡ suc (k - start) = omega arith in
    let there : get_elem? (drop start src) (k - start) ≡ some 10 =
      sym (last?-take (k - start) (drop start src) (omega (arith, length-drop start src)))
      ∙ sym (ap (λ (j : ℕ). last? (take j (drop start src))) n)
      ∙ e in
    let ten : get_or src k 0 ≡ 10 =
      ap (λ (j : ℕ). get_or src j 0) {x = k} (omega arith)
      ∙ sym (get_or-drop start (k - start) src 0)
      ∙ get_elem?-get_or (k - start) (drop start src) there in
    ground (arith, ten, m)

between-nothing : (start end : ℕ) (src : Text) → end ≤ start → NoNewlineLast (between start end src)
between-nothing start end src h e =
    let n : end - start ≡ 0 = omega arith in
    cc (sym (ap (λ (j : ℕ). last? (take j (drop start src))) n) ∙ e)

-- The text up to the end of a declaration does not end in a newline.
pub decl_end-last :
    (src : Text) (next : Option ℕ) (start : ℕ)
    → NoNewlineLast (between start (decl_end src (line_starts src) next) src)
unfolding decl_end
decl_end-last src next start = by_end _ refl (decl_end-le src next)
  where
    by_end :
        (e : ℕ)
        → decl_end src (line_starts src) next ≡ e
        → decl_end src (line_starts src) next ≤ length src
        → NoNewlineLast (between start (decl_end src (line_starts src) next) src)
    by_end zero q h = rw q (between-nothing start 0 src (omega arith))
    by_end (suc k) q h = elim (dec_le start k) [
      | yes a ↦ rw q (
          between-last start k src a (omega (arith, q, h))
            (before_newlines-last src (next_start src (line_starts src) next) q))
      | no a ↦ rw q (between-nothing start (suc k) src (omega arith))
    ]

find_equals-lt :
    (i before : ℕ) (s : Text) {j : ℕ}
    → find_equals i before s ≡ some j
    → (i ≤ j) × (j < i + length s)
unfolding find_equals
find_equals-lt i before [] e = cc e
find_equals-lt i before (c ∷ s) {j} e = elim (Bool-cases (bare_equals before (c ∷ s))) [
  | inl y ↦ let e' : some i ≡ some j = rw (find_equals, y) at e in ground (arith, e')
  | inr n ↦
      let (a, b) = find_equals-lt (suc i) c s {j = j} (rw (find_equals, n) at e) in
      (omega arith, omega arith)
]

-- What `split_head` finds: the signature ends before the body starts, both inside of the
-- declaration, and the signature does not end in a newline.
pub record Split (src : Text) (start end sig_end body : ℕ) : Type 0 where
  pub after_start : start ≤ sig_end
  pub before_body : sig_end < body
  pub inside : body ≤ end
  pub sig_last : NoNewlineLast (between start sig_end src)

module _ (seg : Text) (i : ℕ) (found : find_equals 0 0 seg ≡ some i) where
  -- What `trim_end` leaves of what stands before the `=`, as the front of the segment.
  trimmed_front : (u : Text) × (seg ≡ trim_end (take i seg) ++ u)
  trimmed_front =
      let (v, e) = trim_end-front (take i seg) in
      (
        v ++ drop i seg,
        sym (take-drop i seg)
            ∙ ap (λ (t : Text). t ++ drop i seg) e
            ∙ append_assoc (trim_end (take i seg)) v (drop i seg),
      )

  trimmed_le : length (trim_end (take i seg)) ≤ i
  trimmed_le =
      let (v, e) = trim_end-front (take i seg) in
      omega (
        arith,
        ap length e,
        length-append (trim_end (take i seg)) v,
        length-take i seg (omega (arith, (find_equals-lt 0 0 seg found).1)),
      )

  gap_le : i + 1 + count_while is_gap (drop (suc i) seg) ≤ length seg
  gap_le = omega (
    arith,
    Covers-le-length (Covers-count_while is_gap (drop (suc i) seg)),
    length-drop (suc i) seg,
    (find_equals-lt 0 0 seg found).1,
  )

  trimmed_last :
      (src : Text) (start end : ℕ)
      → between start end src ≡ seg
      → NoNewlineLast (between start (start + length (trim_end (take i seg))) src)
  trimmed_last src start end e =
      let trimmed : Text = trim_end (take i seg) in
      let (u, front) = trimmed_front in
      let whole : drop start src ≡ trimmed ++ (u ++ drop (end - start) (drop start src)) =
        sym (take-drop (end - start) (drop start src))
        ∙ ap (λ (t : Text). t ++ drop (end - start) (drop start src)) (e ∙ front)
        ∙ append_assoc trimmed u (drop (end - start) (drop start src)) in
      let cut : between start (start + length trimmed) src ≡ trimmed =
        ap (λ (j : ℕ). take j (drop start src)) {x = start + length trimmed - start} (omega arith)
        ∙ ap (take (length trimmed)) whole
        ∙ take-append trimmed (u ++ drop (end - start) (drop start src)) in
      λ ten. trim_end-last (take i seg) (sym (ap last? cut) ∙ ten)

pub split_head-Split :
    (src : Text) (start end : ℕ) {sig_end body : ℕ}
    → start ≤ end
    → end ≤ length src
    → split_head src start end ≡ some (sig_end, body)
    → Split src start end sig_end body
unfolding split_head
split_head-Split src start end {sig_end} {body} h inside e =
    elim (Option-cases (find_equals 0 0 (between start end src))) [
      | inl none_left ↦ cc (rw (split_head, none_left) at e)
      | inr (i, found) ↦
          let seg : Text = between start end src in
          let e' : ◌≡◌ {A = Option (ℕ × ℕ)}
              (some (
                start + length (trim_end (take i seg)),
                start + i + 1 + count_while is_gap (drop (suc i) seg),
              ))
              (some (sig_end, body)) =
            rw (split_head, found) at e in
          let first : start + length (trim_end (take i seg)) ≡ sig_end = cc e' in
          let second : start + i + 1 + count_while is_gap (drop (suc i) seg) ≡ body = cc e' in
          record {
            after_start = omega (arith, first);
            before_body = omega (arith, first, second, trimmed_le seg i found);
            inside = omega (arith, second, gap_le seg i found, length-between start end src inside);
            sig_last = rw (← first) (trimmed_last seg i found src start end refl);
          }
    ]
