-- ===== src/Lexer/Ends.antt =====
-- src/lexer.rs: the lexer ends, with tokens or with an error.
use vibelang.Base.{
  ℕ, zero, suc, ◌+◌, ◌-◌, ◌≤◌, ◌<◌, Text, Bool, true, false, not, some, List, [], ◌∷◌, ◌++◌, ◌≡◌,
  refl, arith, ◌==◌, length, drop, length-drop, Bool-cases, ◌⊎◌, inl, inr,
}
use vibelang.Lexer.{Token}
use vibelang.Lexer.Scan.{Scan, took, refused, scan}
use vibelang.Lexer.Scan.Extent.{scan-positive}
use vibelang.Lexer.Run.{
  Lexer, rest_of, advance, Blank, space, comment, other, blank_at, comment_length, comment_at,
  skip_blank, Lexed, lexed, failed, out_of_fuel, next_line, read_one, read_token, run, start,
  lex_full, real_tokens, drop_newlines,
}

-- How many bytes are left.
abbrev pub left : Lexer → ℕ
left l = length (rest_of l)

pub Blank-cases : (b : Blank) → (b ≡ space) ⊎ ((b ≡ comment) ⊎ (b ≡ other))
Blank-cases space = inl refl
Blank-cases comment = inr (inl refl)
Blank-cases other = inr (inr refl)

left-advance : (l : Lexer) (n : ℕ) → length (drop (l.pos + n) l.src) ≡ left l - n
left-advance l n = omega (arith, length-drop (l.pos + n) l.src, length-drop l.pos l.src)

space_left : (rest : Text) → blank_at rest ≡ space → 0 < length rest
unfolding blank_at
space_left [] h = absurd (cc h)
space_left (c ∷ rest) h = omega arith

comment_left :
    (rest : Text) → blank_at rest ≡ comment → (0 < comment_length rest) × (0 < length rest)
unfolding blank_at
comment_left [] h = absurd (cc h)
comment_left (c ∷ rest) h = elim (Bool-cases (not (c == 10))) [
  | inl y ↦ (rw y (omega arith), omega arith)
  | inr n ↦ let e : c ≡ 10 = ground (arith, n) in absurd (cc (rw e at h))
]

-- Skipping blanks ends, and leaves no more than there was.
pub skip_blank-total :
    (f : ℕ) (l : Lexer) (after : ℕ)
    → left l < f
    → (l' : Lexer) × (skip_blank f l after ≡ some l') × (left l' ≤ left l)
unfolding skip_blank
skip_blank-total zero l after h = absurd (omega arith)
skip_blank-total (suc f) l after h = elim (Blank-cases (blank_at (rest_of l))) [
  | inl b ↦
      let (l', e, le) =
        skip_blank-total f (advance 1 l) after
          (omega (arith, left-advance l 1, space_left (rest_of l) b, h)) in
      (l', rw (skip_blank, b) e, omega (arith, le, left-advance l 1))
  | inr (inl b) ↦
      let n = comment_length (rest_of l) in
      let (some_bytes, some_left) = comment_left (rest_of l) b in
      let (l', e, le) =
        skip_blank-total f
          (record l { pos = l.pos + n; comments = l.comments ++ comment_at l after ∷ [] }) after
          (omega (arith, left-advance l n, some_bytes, some_left, h)) in
      (l', rw (skip_blank, b) e, omega (arith, le, left-advance l n))
  | inr (inr b) ↦ (l, rw (skip_blank, b) refl, omega arith)
]

next_line-left : (l : Lexer) → 0 < left l → left (next_line l) < left l
next_line-left l h = omega (arith, length-drop (suc l.pos) l.src, length-drop l.pos l.src, h)

advance-left : (l : Lexer) (n : ℕ) → 0 < left l → 0 < n → left (advance n l) < left l
advance-left l n h up = omega (arith, left-advance l n, h, up)

abbrev pub ran_out : Lexed → Bool
ran_out (lexed _ _) = false
ran_out (failed _) = false
ran_out out_of_fuel = true

module _ (parse_f64 : Text → ℕ) where
  read_token-ran_out :
      (next : Lexer → List Token → ℕ → Lexed) (l : Lexer) (out : List Token) (depth : ℕ)
      (rest : Text)
      → 0 < left l
      → (x : Scan) → scan parse_f64 rest ≡ x
      → ((l' : Lexer) (out' : List Token) (depth' : ℕ)
          → left l' < left l
          → ran_out (next l' out' depth') ≡ false)
      → ran_out (read_token next l out depth x) ≡ false
  unfolding read_token
  read_token-ran_out next l out depth rest more (took tok n) e h =
      h (advance n l) _ _ (advance-left l n more (scan-positive parse_f64 rest e))
  read_token-ran_out next l out depth rest more (refused a b code) e h = refl

  read_one-ran_out :
      (next : Lexer → List Token → ℕ → Lexed) (l : Lexer) (out : List Token) (depth : ℕ)
      (rest : Text)
      → rest_of l ≡ rest
      → ((l' : Lexer) (out' : List Token) (depth' : ℕ)
          → left l' < left l
          → ran_out (next l' out' depth') ≡ false)
      → ran_out (read_one parse_f64 next l out depth rest) ≡ false
  unfolding read_one
  read_one-ran_out next l out depth [] e h = refl
  read_one-ran_out next l out depth (c ∷ rest) e h =
      let more : 0 < left l = rw e (omega arith) in
      elim (Bool-cases (c == 10)) [
        | inl newline ↦ rw newline (h (next_line l) _ depth (next_line-left l more))
        | inr other_byte ↦
            rw other_byte (
              read_token-ran_out next l out depth (c ∷ rest) more (scan parse_f64 (c ∷ rest)) refl
                h)
      ]

  pub run-total :
      (f : ℕ) (l : Lexer) (out : List Token) (depth : ℕ)
      → left l < f
      → ran_out (run parse_f64 f l out depth) ≡ false
  unfolding run
  run-total zero l out depth h = absurd (omega arith)
  run-total (suc f) l out depth h =
      let (l', e, le) =
        skip_blank-total (suc (length l.src)) l (real_tokens out)
          (omega (arith, length-drop l.pos l.src)) in
      rw (run, e)
        (read_one-ran_out (run parse_f64 f) l' out depth (rest_of l') refl
          (λ l'' out'' depth'' lt. run-total f l'' out'' depth'' (omega (arith, lt, le, h))))

  -- `lex_full` ends: its fuel is enough for any source.
  pub lex_full-total : (src : Text) (file : ℕ) → ran_out (lex_full parse_f64 src file) ≡ false
  unfolding lex_full
  lex_full-total src file =
      after_run (run parse_f64 (suc (length src)) (start src file) [] 0)
        (run-total (suc (length src)) (start src file) [] 0 (omega arith))
    where
      after_run :
          (r : Lexed)
          → ran_out r ≡ false
          → ran_out (elim r [
            | lexed toks comments ↦ lexed (drop_newlines toks) comments
            | failed d ↦ failed d
            | out_of_fuel ↦ out_of_fuel
          ])
            ≡ false
      after_run (lexed toks comments) h = refl
      after_run (failed d) h = refl
      after_run out_of_fuel h = h
