-- ===== src/Lexer/Scan/Strings.antt =====
-- src/lexer.rs, `string`: a literal takes at least one byte, takes bytes that are there, and stays on
-- its line.
use vibelang.Base.{
  ℕ, suc, ◌+◌, Text, true, false, some, [], ◌∷◌, ◌++◌, ◌≡◌, refl, subst, arith, ◌==◌, drop,
  Bool-cases, Option-cases, ◌⊎◌, inl, inr, Covers, no_items, one_more, Covers-add, ◌≢◌,
}
use vibelang.Lexer.{Tok}
use vibelang.Lexer.Scan.{
  took, at, escaped, InString, in_string, quote, backslash, stop, plain, string_loop, string,
}
use vibelang.Lexer.Scan.Words.{in_line, Extent, took-eq}

-- The four arms of `string`'s loop.
InString-cases : (x : InString) → (x ≡ quote) ⊎ ((x ≡ backslash) ⊎ ((x ≡ stop) ⊎ (x ≡ plain)))
InString-cases quote = inl refl
InString-cases backslash = inr (inl refl)
InString-cases stop = inr (inr (inl refl))
InString-cases plain = inr (inr (inr refl))

stop_at_newline : (c : ℕ) → in_line c ≡ false → in_string c ≡ stop
unfolding in_string
stop_at_newline c h = let e : c ≡ 10 = ground (arith, h) in rw e refl

unstopped : (c : ℕ) → in_string c ≢ stop → in_line c ≡ true
unstopped c ne = elim (Bool-cases (in_line c)) [
  | inl y ↦ y
  | inr n ↦ absurd (ne (stop_at_newline c n))
]

pub escaped_line : (e x : ℕ) → escaped e ≡ some x → in_line e ≡ true
unfolding escaped
escaped_line e x h = elim (Bool-cases (in_line e)) [
  | inl y ↦ y
  | inr n ↦ let q : e ≡ 10 = ground (arith, n) in absurd (cc (rw q at h))
]

abbrev LoopExtent : Text → ℕ → ℕ → Type 0
LoopExtent rest k n = (m : ℕ) × (n ≡ k + m) × Extent rest m

one_byte :
    (c : ℕ) (rest : Text) (k n : ℕ) → in_string c ≢ stop → suc k ≡ n → LoopExtent (c ∷ rest) k n
one_byte c rest k n ne e = (1, omega (arith, e), (omega arith, one_more (unstopped c ne) no_items))

longer :
    (a : ℕ) (rest : Text) (k n : ℕ)
    → Covers in_line a rest
    → LoopExtent (drop a rest) (a + k) n
    → LoopExtent rest k n
longer a rest k n first (m, e, (up, c)) =
    (a + m, omega (arith, e), (omega (arith, up), Covers-add first c))

string_loop-Extent :
    (rest : Text) (k : ℕ) (s : Text) {t : Tok} {n : ℕ}
    → string_loop rest k s ≡ took t n
    → LoopExtent rest k n
unfolding string_loop
string_loop-Extent [] k s h = absurd (cc h)
string_loop-Extent (c ∷ []) k s {n = n} h = elim (InString-cases (in_string c)) [
  | inl q ↦ one_byte c [] k n (λ x. cc (q, x)) (took-eq (rw (string_loop, q) at h))
  | inr (inl q) ↦ absurd (cc (rw (string_loop, q) at h))
  | inr (inr (inl q)) ↦ absurd (cc (rw (string_loop, q) at h))
  | inr (inr (inr q)) ↦ absurd (cc (rw (string_loop, q) at h))
]
string_loop-Extent (c ∷ e ∷ rest) k s {n = n} h = elim (InString-cases (in_string c)) [
  | inl q ↦ one_byte c (e ∷ rest) k n (λ x. cc (q, x)) (took-eq (rw (string_loop, q) at h))
  | inr (inl q) ↦ elim (Option-cases (escaped e)) [
    | inl unknown ↦ absurd (cc (rw (string_loop, q, unknown) at h))
    | inr (x, known) ↦
        longer 2 (c ∷ e ∷ rest) k n
          (one_more (unstopped c (λ y. cc (q, y))) (one_more (escaped_line e x known) no_items))
          (subst (λ (j : ℕ). LoopExtent rest j n) (omega arith)
            (string_loop-Extent rest (k + 2) (s ++ x ∷ []) (rw (string_loop, q, known) at h)))
  ]
  | inr (inr (inl q)) ↦ absurd (cc (rw (string_loop, q) at h))
  | inr (inr (inr q)) ↦
      longer 1 (c ∷ e ∷ rest) k n (one_more (unstopped c (λ y. cc (q, y))) no_items) (
        subst (λ (j : ℕ). LoopExtent (e ∷ rest) j n) (omega arith)
          (string_loop-Extent (e ∷ rest) (suc k) (s ++ c ∷ []) (rw (string_loop, q) at h)))
]

pub string-Extent :
    (rest : Text) {t : Tok} {n : ℕ}
    → (at 0 rest == b'"') ≡ true
    → string rest ≡ took t n
    → Extent rest n
unfolding string
string-Extent [] d h = absurd (cc d)
string-Extent (c ∷ rest) {n = n} d h =
    let (m, e, (up, covers)) = string_loop-Extent rest 1 [] h in
    (
      omega (arith, e),
      subst (λ (j : ℕ). Covers in_line j (c ∷ rest)) (omega (arith, e))
          (one_more {x = c} (ground (arith, d)) covers),
    )
