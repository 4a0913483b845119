-- ===== src/Patch/Nodes.antt =====
-- src/patch.rs: where the nodes of a module lie, and what `apply` does to the source.
use vibelang.Base.{
  ℕ, ◌+◌, ◌-◌, ◌≤◌, ◌<◌, Text, Option, List, [], ◌∷◌, ◌++◌, ◌≡◌, ap, ◌∙◌, arith, leb, length, take,
  drop, Bool-cases, Option-cases, inl, inr, if◌then◌else◌, take-drop, drop-drop, In, In-append,
  In-cons,
}
use vibelang.Ast.{Decl, Module}
use vibelang.Patch.{
  Node, text, offset, line_starts, decl_end, decl_span, base_path, split_head, parts, is_fun,
  decl_nodes, nodes_from, nodes, apply,
}
use vibelang.Patch.Trims.{NoNewlineLast, without_newlines_lem}
use vibelang.Patch.Slices.{between, decl_end-le, decl_end-last, Split, split_head-Split}

-- A node is a part of the source, and the last byte of its text is no newline.
pub record IsPlaced (src : Text) (n : Node) : Type 0 where
  pub ordered : n.start ≤ n.end
  pub inside : n.end ≤ length src
  pub last : NoNewlineLast (text n src)

parts-IsPlaced :
    (src base : Text) (start end : ℕ) {n : Node}
    → start ≤ end
    → end ≤ length src
    → ((at : ℕ) → NoNewlineLast (between at end src))
    → In n (parts base start end (split_head src start end))
    → IsPlaced src n
parts-IsPlaced src base start end h inside last m = elim (Option-cases (split_head src start end)) [
  | inl none_left ↦ elim (rw none_left at m) [ ]
  | inr ((sig_end, body), e) ↦
      let s : Split src start end sig_end body = split_head-Split src start end h inside e in
      elim (In-cons (rw e at m)) [
        | inl same ↦ rw same (record {
          ordered = s.after_start;
          inside = omega (arith, s.before_body, s.inside);
          last = s.sig_last;
        })
        | inr later ↦ elim (In-cons later) [
          | inl same ↦ rw same (record { ordered = s.inside; inside = inside; last = last body })
          | inr none_left ↦ elim none_left [ ]
        ]
      ]
]

decl_nodes-IsPlaced :
    (m src : Text) (d : Decl) (next : Option ℕ) {n : Node}
    → In n (decl_nodes m src d next)
    → IsPlaced src n
unfolding decl_nodes
decl_nodes-IsPlaced m src d next {n} i =
    let start : ℕ = offset (line_starts src) (decl_span d) in
    let end : ℕ = decl_end src (line_starts src) next in
    let base : Text = base_path m d in
    elim (Bool-cases (leb end start)) [
      | inl y ↦ elim (rw (decl_nodes, y) at i) [ ]
      | inr more ↦
          let h : start < end = ground (arith, more) in
          let whole : In n (
              (if is_fun d then parts base start end (split_head src start end) else [])
              ++ record { path = base; start = start; end = end } ∷ []) =
            rw (decl_nodes, more) at i in
          elim (In-append (if is_fun d then parts base start end (split_head src start end) else [])
            _ whole) [
              | inl of_fun ↦ elim (Bool-cases (is_fun d)) [
                | inl fun ↦
                    parts-IsPlaced src base start end (omega arith) (decl_end-le src next)
                      (decl_end-last src next) (rw fun at of_fun)
                | inr other ↦ elim (rw other at of_fun) [ ]
              ]
              | inr own ↦ elim (In-cons own) [
                | inl same ↦ rw same (record {
                  ordered = omega arith;
                  inside = decl_end-le src next;
                  last = decl_end-last src next start;
                })
                | inr none_left ↦ elim none_left [ ]
              ]
            ]
    ]

nodes_from-IsPlaced :
    (m src : Text) (ds : List Decl) {n : Node} → In n (nodes_from m src ds) → IsPlaced src n
unfolding nodes_from
nodes_from-IsPlaced m src [] i = elim i [ ]
nodes_from-IsPlaced m src (d ∷ ds) i = elim (In-append (decl_nodes m src d _) _ i) [
  | inl first ↦ decl_nodes-IsPlaced m src d _ first
  | inr later ↦ nodes_from-IsPlaced m src ds later
]

-- Every node of a module, whatever spans its declarations have, starts no later than it ends and
-- ends within the source, and its text does not end in a newline.
pub nodes-IsPlaced : (m : Module) (src : Text) {n : Node} → In n (nodes m src) → IsPlaced src n
unfolding nodes
nodes-IsPlaced m src i = nodes_from-IsPlaced m.name src m.decls i

take-between :
    (start end : ℕ) (src : Text)
    → start ≤ end
    → take start src ++ (between start end src ++ drop end src) ≡ src
take-between start end src h =
    ap (λ (t : Text). take start src ++ (between start end src ++ t))
      (ap (λ (j : ℕ). drop j src) {x = end} {y = start + (end - start)} (omega arith)
        ∙ drop-drop start (end - start) src)
    ∙ ap (◌++◌ (take start src)) (take-drop (end - start) (drop start src))
    ∙ take-drop start src

-- Replacing a node of a module by its own text changes nothing.
pub apply-text :
    (m : Module) (src : Text) {n : Node} → In n (nodes m src) → apply src n (text n src) ≡ src
unfolding apply
apply-text m src {n} i =
    let p : IsPlaced src n = nodes-IsPlaced m src i in
    ap (λ (t : Text). take n.start src ++ (t ++ drop n.end src))
      (without_newlines_lem (text n src) p.last)
    ∙ take-between n.start n.end src p.ordered
