-- ===== src/Patch/Apply.antt =====
-- src/patch.rs: what `apply` keeps of the source, and where.
use vibelang.Base.{
  ℕ, zero, suc, ◌+◌, ◌-◌, ◌≤◌, Text, [], ◌∷◌, ◌++◌, ◌≡◌, refl, sym, ap, ◌∙◌, arith, length, take,
  drop, length-take, length-drop, take-append, take-drop, drop-drop, drop-append, In, leb,
  Bool-cases, ◌⊎◌, inl, inr, if◌then◌else◌,
}
use vibelang.Ast.{Module}
use vibelang.Patch.{Node, text, nodes, without_newlines, apply}
use vibelang.Patch.Slices.{between}
use vibelang.Patch.Nodes.{IsPlaced, nodes-IsPlaced}

take-append_left : (n : ℕ) (xs ys : Text) → n ≤ length xs → take n (xs ++ ys) ≡ take n xs
take-append_left zero xs ys h = refl
take-append_left (suc n) [] ys h = elim h [ ]
take-append_left (suc n) (x ∷ xs) ys h = ap (◌∷◌ x) (take-append_left n xs ys (omega arith))

drop-append_left : (n : ℕ) (xs ys : Text) → n ≤ length xs → drop n (xs ++ ys) ≡ drop n xs ++ ys
drop-append_left zero xs ys h = refl
drop-append_left (suc n) [] ys h = elim h [ ]
drop-append_left (suc n) (x ∷ xs) ys h = drop-append_left n xs ys (omega arith)

between-append_left :
    (start end : ℕ) (xs ys : Text)
    → start ≤ end
    → end ≤ length xs
    → between start end (xs ++ ys) ≡ between start end xs
between-append_left start end xs ys h inside =
    ap (take (end - start)) (drop-append_left start xs ys (omega arith))
    ∙ take-append_left (end - start) (drop start xs) ys (omega (arith, length-drop start xs))

between-append_right :
    (start end : ℕ) (xs ys : Text)
    → between (length xs + start) (length xs + end) (xs ++ ys) ≡ between start end ys
between-append_right start end xs ys =
    ap (λ (j : ℕ). take j (drop (length xs + start) (xs ++ ys)))
      {x = length xs + end - (length xs + start)} (omega arith)
    ∙ ap (take (end - start))
        (drop-drop (length xs) start (xs ++ ys) ∙ ap (drop start) (drop-append xs ys))

-- Where a node stands after another one is replaced by `new`: in its place if it is before that
-- one, and else moved by as much as the text grew or shrank.
abbrev pub moved : Node → Text → Node → Node
moved n new k = if leb k.end n.start then k else record {
  path = k.path;
  start = n.start + (length (without_newlines new) + (k.start - n.end));
  end = n.start + (length (without_newlines new) + (k.end - n.end));
}

module _ (src new : Text) {n : Node} (p : IsPlaced src n) where
  front_length : length (take n.start src) ≡ n.start
  front_length = length-take n.start src (omega (arith, p.ordered, p.inside))

  between-apply :
      (a b : ℕ)
      → between (n.start + a) (n.start + b) (apply src n new)
        ≡ between a b (without_newlines new ++ drop n.end src)
  unfolding apply
  between-apply a b =
      ap (λ (j : ℕ). between (j + a) (j + b) (apply src n new)) (sym front_length)
      ∙ between-append_right a b (take n.start src) (without_newlines new ++ drop n.end src)

  between-apply_new :
      between n.start (n.start + length (without_newlines new)) (apply src n new)
      ≡ without_newlines new
  between-apply_new =
      let w : Text = without_newlines new in
      ap (λ (j : ℕ). between j (n.start + length w) (apply src n new)) {x = n.start}
        {y = n.start + 0} (omega arith)
      ∙ between-apply 0 (length w)
      ∙ ap (λ (j : ℕ). take j (w ++ drop n.end src)) {x = length w - 0} (omega arith)
      ∙ take-append w (drop n.end src)

  text-apply_before :
      (k : Node) → k.start ≤ k.end → k.end ≤ n.start → text k (apply src n new) ≡ text k src
  unfolding apply
  text-apply_before k h before =
      between-append_left k.start k.end (take n.start src) (without_newlines new ++ drop n.end src)
        h (omega (arith, front_length))
      ∙ sym (
          between-append_left k.start k.end (take n.start src) (drop n.start src) h
            (omega (arith, front_length)))
      ∙ ap (between k.start k.end) (take-drop n.start src)

  text-apply_behind :
      (k : Node)
      → k.start ≤ k.end
      → n.end ≤ k.start
      → between
          (n.start + (length (without_newlines new) + (k.start - n.end)))
          (n.start + (length (without_newlines new) + (k.end - n.end)))
          (apply src n new)
        ≡ text k src
  text-apply_behind k h behind =
      let w : Text = without_newlines new in
      between-apply (length w + (k.start - n.end)) (length w + (k.end - n.end))
      ∙ between-append_right (k.start - n.end) (k.end - n.end) w (drop n.end src)
      ∙ ap (λ (j : ℕ). take j (drop (k.start - n.end) (drop n.end src)))
          {x = k.end - n.end - (k.start - n.end)} {y = k.end - k.start} (omega arith)
      ∙ ap (take (k.end - k.start)) (
          sym (drop-drop n.end (k.start - n.end) src)
          ∙ ap (λ (j : ℕ). drop j src) {x = n.end + (k.start - n.end)} (omega arith))

-- After a node of a module is replaced, the new text without its newlines at the end stands there,
-- and every part of the source that lies before the node or behind it has the text it had: before
-- the node in its place, behind it moved by as much as the text grew or shrank.
pub text-apply :
    (m : Module) (src new : Text) {n : Node} (k : Node)
    → In n (nodes m src)
    → k.start ≤ k.end
    → (k.end ≤ n.start) ⊎ (n.end ≤ k.start)
    → (between n.start (n.start + length (without_newlines new)) (apply src n new)
        ≡ without_newlines new)
      × (text (moved n new k) (apply src n new) ≡ text k src)
text-apply m src new {n} k i h apart =
    let p : IsPlaced src n = nodes-IsPlaced m src i in
    (
      between-apply_new src new p,
      elim (Bool-cases (leb k.end n.start)) [
        | inl y ↦ rw y (text-apply_before src new p k h (ground (arith, y)))
        | inr other ↦
            let behind : n.end ≤ k.start = elim apart [
              | inl b ↦ absurd (ground (arith, b, other))
              | inr b ↦ b
            ] in
            rw other (text-apply_behind src new p k h behind)
      ],
    )
