-- ===== src/Types/Distance/Suggest.antt =====
-- src/types.rs, `suggest`: the candidate that it names is the closest within the limit, the smaller
-- name of two that are equally close, and it names one whenever there is one.
use vibelang.Base.{
  Text, true, false, ◌&&◌, Option, none, some, List, [], ◌∷◌, ◌≡◌, refl, sym, subst, ◌∙◌, arith,
  Bool-cases, inl, inr, ◌⊎◌, In, here, there, and_true,
}
use vibelang.Types.Distance.{within, text_less, closer, next_best, best_of, suggest}

text_less_trans :
    (r s t : Text) → text_less r s ≡ true → text_less s t ≡ true → text_less r t ≡ true
unfolding text_less
text_less_trans [] [] t h k = absurd (cc h)
text_less_trans [] (d ∷ s) [] h k = absurd (cc k)
text_less_trans [] (d ∷ s) (e ∷ t) h k = refl
text_less_trans (c ∷ r) [] t h k = absurd (cc h)
text_less_trans (c ∷ r) (d ∷ s) [] h k = absurd (cc k)
text_less_trans (c ∷ r) (d ∷ s) (e ∷ t) h k = ground (arith, h, k, text_less_trans r s t)

text_less_irrefl : (s : Text) → text_less s s ≡ false
unfolding text_less
text_less_irrefl [] = refl
text_less_irrefl (c ∷ s) = ground (arith, text_less_irrefl s)

module _ (name : Text) where
  closer_trans :
      (a b c : Text) → closer name a b ≡ true → closer name b c ≡ true → closer name a c ≡ true
  unfolding closer
  closer_trans a b c h k = ground (arith, h, k, text_less_trans a b c)

  closer_irrefl : (a : Text) → closer name a a ≡ false
  unfolding closer
  closer_irrefl a = ground (arith, text_less_irrefl a)

  -- What is not closer than a name is not closer than one that replaces it.
  not_closer :
      (x b c : Text) → closer name x b ≡ false → closer name c b ≡ true → closer name x c ≡ false
  not_closer x b c h k = elim (Bool-cases (closer name x c)) [
    | inl l ↦ absurd (cc (closer_trans x c b l k, h))
    | inr n ↦ n
  ]

  next_best-cases :
      (best : Option Text) (c : Text)
      → (next_best name best c ≡ best) ⊎ ((next_best name best c ≡ some c) × (within name c ≡ true))
  unfolding next_best
  next_best-cases none c = elim (Bool-cases (within name c)) [
    | inl w ↦ inr (rw w, w)
    | inr n ↦ inl (rw n)
  ]
  next_best-cases (some b) c = elim (Bool-cases (within name c)) [
    | inl w ↦ elim (Bool-cases (closer name c b)) [
      | inl k ↦ inr (rw (w, k), w)
      | inr n ↦ inl (rw (w, n))
    ]
    | inr n ↦ inl (rw n)
  ]

  best_of-In :
      (best : Option Text) (cs : List Text) {n : Text}
      → best_of name best cs ≡ some n
      → (best ≡ some n) ⊎ (In n cs × (within name n ≡ true))
  unfolding best_of
  best_of-In best [] h = inl h
  best_of-In best (c ∷ cs) {n} h = elim (best_of-In (next_best name best c) cs h) [
    | inr (later, w) ↦ inr (there later, w)
    | inl now ↦ elim (next_best-cases best c) [
      | inl same ↦ inl (sym same ∙ now)
      | inr (new, w) ↦
          let e : n ≡ c = cc (now, new) in
          inr (subst (λ (x : Text). In x (c ∷ cs)) (sym e) here, rw e w)
    ]
  ]

  -- The best so far is no farther than `x`.
  abbrev Beats : Option Text → Text → Type 0
  Beats best x = (b : Text) × (best ≡ some b) × (closer name x b ≡ false)

  Beats-kept : (best : Option Text) (x c : Text) → Beats best x → Beats (next_best name best c) x
  unfolding next_best
  Beats-kept none x c (b, e, h) = absurd (cc e)
  Beats-kept (some a) x c (b, e, h) =
      let same : a ≡ b = cc e in
      let h' : closer name x a ≡ false = rw same h in
      elim (Bool-cases (within name c && closer name c a)) [
        | inl both ↦ (c, rw both, not_closer x a c h' (and_true (within name c) _ both).1)
        | inr no_change ↦ (a, rw no_change, h')
      ]

  Beats-new :
      (best : Option Text) (c : Text) → within name c ≡ true → Beats (next_best name best c) c
  unfolding next_best
  Beats-new none c w = (c, rw w, closer_irrefl c)
  Beats-new (some a) c w = elim (Bool-cases (closer name c a)) [
    | inl k ↦ (c, rw (w, k), closer_irrefl c)
    | inr n ↦ (a, rw (w, n), n)
  ]

  best_of-Beats :
      (best : Option Text) (cs : List Text) (x : Text)
      → Beats best x
      → Beats (best_of name best cs) x
  unfolding best_of
  best_of-Beats best [] x h = h
  best_of-Beats best (c ∷ cs) x h =
      best_of-Beats (next_best name best c) cs x (Beats-kept best x c h)

  best_of-Beats_all :
      (best : Option Text) (cs : List Text) (x : Text)
      → In x cs
      → within name x ≡ true
      → Beats (best_of name best cs) x
  unfolding best_of
  best_of-Beats_all best [] x m w = elim m [ ]
  best_of-Beats_all best (c ∷ cs) _ here w =
      best_of-Beats (next_best name best c) cs c (Beats-new best c w)
  best_of-Beats_all best (c ∷ cs) x (there m) w = best_of-Beats_all (next_best name best c) cs x m w

-- A suggestion is one of the candidates, and within the limit.
pub suggest-In :
    (name : Text) (cs : List Text) (n : Text)
    → suggest name cs ≡ some n
    → In n cs × (within name n ≡ true)
unfolding suggest
suggest-In name cs n h = elim (best_of-In name none cs h) [
  | inl start ↦ absurd (cc start)
  | inr found ↦ found
]

-- No candidate within the limit is closer than the suggestion, nor as close with a smaller name.
pub suggest-closest :
    (name : Text) (cs : List Text) (n x : Text)
    → suggest name cs ≡ some n
    → In x cs
    → within name x ≡ true
    → closer name x n ≡ false
unfolding suggest
suggest-closest name cs n x h m w =
    let (b, e, k) = best_of-Beats_all name none cs x m w in
    let same : n ≡ b = cc (h, e) in rw same k

-- If nothing is suggested, no candidate is within the limit.
pub suggest-none :
    (name : Text) (cs : List Text) (x : Text)
    → suggest name cs ≡ none
    → In x cs
    → within name x ≡ false
unfolding suggest
suggest-none name cs x h m = elim (Bool-cases (within name x)) [
  | inl w ↦ let (b, e, k) = best_of-Beats_all name none cs x m w in absurd (cc (h, e))
  | inr far ↦ far
]
