-- ===== src/Diag/Render/Json/Members.antt =====
-- src/diag.rs, `render` with `DiagFormat::Json`: the object that a reader finds in the rendering.
use vibelang.Base.{
  ℕ, suc, ◌+◌, Text, true, false, Option, none, some, List, [], ◌∷◌, ◌++◌, codes, ◌≡◌, refl, sym,
  ap, ◌∙◌, arith, ◌==◌, length, take, drop, count_while, all, is_digit, decimal, decimal_value,
  decimal-IsDecimal, IsDecimal, append_assoc, Bool-cases, ◌⊎◌, inl, inr, take-append, drop-append,
}
use vibelang.Diag.Render.{Report, Files, name, shown_path, json_escape, closed, push, render_json}
use vibelang.Diag.Render.Json.{
  State, read_text, Value, as_text, read_value, Member, after_member, after_key, read_members,
  read_object,
}
use vibelang.Diag.Render.Json.Texts.{read_text-json_escape}

count-digits :
    (ds : Text) (c : ℕ) (r : Text)
    → all is_digit ds ≡ true
    → is_digit c ≡ false
    → count_while is_digit (ds ++ c ∷ r) ≡ length ds
count-digits [] c r h n = rw n refl
count-digits (d ∷ ds) c r h n = ground (arith, h, count-digits ds c r, n)

read_digits :
    (x : ℕ) (xs : Text) (c : ℕ) (r : Text)
    → all is_digit (x ∷ xs) ≡ true
    → ((x == b'0') ≡ false) ⊎ (xs ≡ [])
    → is_digit c ≡ false
    → read_value (x ∷ (xs ++ c ∷ r)) ≡ some (Value.number (decimal_value 0 (x ∷ xs)), c ∷ r)
unfolding read_value
read_digits x [] c r ds z h =
    let e : count_while is_digit (x ∷ c ∷ r) ≡ 1 = count-digits (x ∷ []) c r ds h in
    let q : (x == b'"') ≡ false = ground (arith, ds) in rw (read_value, q, e) refl
read_digits x (y ∷ ys) c r ds z h =
    let e : count_while is_digit (x ∷ y ∷ (ys ++ c ∷ r)) ≡ suc (suc (length ys)) =
      count-digits (x ∷ y ∷ ys) c r ds h in
    let q : (x == b'"') ≡ false = ground (arith, ds) in
    let nz : (x == b'0') ≡ false = elim z [ inl a ↦ a | inr b ↦ cc b ] in
    let front : take (suc (length ys)) (y ∷ (ys ++ c ∷ r)) ≡ y ∷ ys =
      take-append (y ∷ ys) (c ∷ r) in
    let back : drop (suc (length ys)) (y ∷ (ys ++ c ∷ r)) ≡ c ∷ r = drop-append (y ∷ ys) (c ∷ r) in
    rw (read_value, q, e, nz)
      (ap (λ (p : Text × Text). some (Value.number (decimal_value 0 (x ∷ p.0)), p.1))
        (λ i. (front i, back i)))

-- A number is read back, with what follows it.
read_number :
    (n c : ℕ) (r : Text)
    → is_digit c ≡ false
    → read_value (decimal n ++ c ∷ r) ≡ some (Value.number n, c ∷ r)
read_number n c r h =
    let d : IsDecimal n (decimal n) = decimal-IsDecimal n in
    let z : ((d.first == b'0') ≡ false) ⊎ (d.others ≡ []) = elim (Bool-cases (n == 0)) [
      | inl y ↦ inr (d.one_digit (ground (arith, y)))
      | inr m ↦ inl (d.no_zero (λ e. ground (arith, e, m)))
    ] in
    ap (λ (t : Text). read_value (t ++ c ∷ r)) d.starts
    ∙ read_digits d.first d.others c r (rw d.starts at d.digit) z h
    ∙ ap (λ (v : ℕ). some (Value.number v, c ∷ r)) (ap (decimal_value 0) (sym d.starts) ∙ d.value)

read_string :
    (s r : Text) → read_value (b'"' ∷ (json_escape s ++ b'"' ∷ r)) ≡ some (Value.text s, r)
unfolding read_value
read_string s r = ap as_text (read_text-json_escape s [] r)

-- The members of the rendering.
abbrev optional : Text → Option Text → List Member
optional k none = []
optional k (some t) = (k, Value.text t) ∷ []

abbrev pub members : Report → Files → List Member
members r fs =
    (codes "path", Value.text (shown_path r fs))
    ∷ (codes "code", Value.text r.diag.code)
    ∷ (codes "msg", Value.text r.msg)
    ∷ (codes "file", Value.text (name fs r.diag.span))
    ∷ (codes "line", Value.number r.diag.span.line)
    ∷ (codes "col", Value.number (r.diag.span.col + 1))
    ∷ (optional (codes "witness") r.witness ++ optional (codes "fix") r.fix)

-- What is left of a reading at a comma or at the end.
after_comma :
    (more : Text → Option (List Member)) (m : Member) (s : Text) {ms : List Member}
    → more s ≡ some ms
    → after_member more m (b',' ∷ s) ≡ some (m ∷ ms)
unfolding after_member
after_comma more m s h = rw h refl

-- A member whose key is read by computing.
read_member :
    (f : ℕ) (k s t : Text) {v : Value} {u : Text}
    → read_text State.normal [] s ≡ some (k, b':' ∷ t)
    → read_value t ≡ some (v, u)
    → read_members (suc f) (b'"' ∷ s) ≡ after_member (read_members f) (k, v) u
unfolding read_members after_key
read_member f k s t h g = rw (read_members, h, after_key, g) refl

end : (f : ℕ) (m : Member) → after_member (read_members f) m (b'}' ∷ []) ≡ some (m ∷ [])
unfolding after_member
end f m = refl

read_closed : (s r : Text) → read_value (b'"' ∷ (closed s ++ r)) ≡ some (Value.text s, r)
unfolding closed
read_closed s r =
    ap (λ (t : Text). read_value (b'"' ∷ t)) (append_assoc (json_escape s) (b'"' ∷ []) r)
    ∙ read_string s r

-- The two last members, on what stands before them.
read_fix :
    (f : ℕ) (m : Member) (fix : Option Text)
    → after_member (read_members (suc f)) m (push fix (codes ",\"fix\":\"") closed (b'}' ∷ []))
      ≡ some (m ∷ optional (codes "fix") fix)
unfolding read_text
read_fix f m none = end (suc f) m
read_fix f m (some t) = after_comma (read_members (suc f)) m _ (
    read_member f (codes "fix") (codes "fix\":\"" ++ (closed t ++ b'}' ∷ []))
      (b'"' ∷ (closed t ++ b'}' ∷ [])) refl (read_closed t (b'}' ∷ []))
    ∙ end f (codes "fix", Value.text t))

read_witness :
    (f : ℕ) (m : Member) (witness fix : Option Text)
    → after_member (read_members (suc (suc f))) m (
        push witness
          (codes ",\"witness\":\"")
          closed
          (push fix (codes ",\"fix\":\"") closed (b'}' ∷ [])))
      ≡ some (m ∷ (optional (codes "witness") witness ++ optional (codes "fix") fix))
unfolding read_text
read_witness f m none fix = read_fix (suc f) m fix
read_witness f m (some t) fix =
    let more : Text = push fix (codes ",\"fix\":\"") closed (b'}' ∷ []) in
    after_comma (read_members (suc (suc f))) m (codes "\"witness\":\"" ++ (closed t ++ more)) (
      read_member (suc f) (codes "witness") (codes "witness\":\"" ++ (closed t ++ more))
        (b'"' ∷ (closed t ++ more)) refl (read_closed t more)
      ∙ read_fix f (codes "witness", Value.text t) fix)

-- What follows the column starts with no digit.
push_starts :
    (witness fix : Option Text)
    → (c : ℕ) × (r : Text) × (push witness
          (codes ",\"witness\":\"")
          closed
          (push fix (codes ",\"fix\":\"") closed (b'}' ∷ []))
        ≡ c ∷ r)
      × (is_digit c ≡ false)
push_starts none none = (b'}', [], refl, refl)
push_starts none (some f) = (b',', _, refl, refl)
push_starts (some w) fix = (b',', _, refl, refl)

text_member :
    (f : ℕ) (k s v u : Text) {ms : List Member}
    → read_text State.normal [] s ≡ some (k, b':' ∷ b'"' ∷ (json_escape v ++ b'"' ∷ b',' ∷ u))
    → read_members f u ≡ some ms
    → read_members (suc f) (b'"' ∷ s) ≡ some ((k, Value.text v) ∷ ms)
text_member f k s v u h g =
    read_member f k s (b'"' ∷ (json_escape v ++ b'"' ∷ b',' ∷ u)) h (read_string v (b',' ∷ u))
    ∙ after_comma (read_members f) (k, Value.text v) u g

module _ (r : Report) (fs : Files) where
  -- The rendering from the column on, and so on backwards.
  tail_text : Text
  tail_text =
      push r.witness (codes ",\"witness\":\"") closed
        (push r.fix (codes ",\"fix\":\"") closed (b'}' ∷ []))

  tail_members : List Member
  tail_members = optional (codes "witness") r.witness ++ optional (codes "fix") r.fix

  read_col :
      (f : ℕ)
      → read_members
          (suc (suc (suc f)))
          (b'"' ∷ (codes "col\":" ++ (decimal (r.diag.span.col + 1) ++ tail_text)))
        ≡ some ((codes "col", Value.number (r.diag.span.col + 1)) ∷ tail_members)
  unfolding read_text tail_text tail_members
  read_col f =
      let n : ℕ = r.diag.span.col + 1 in
      let (c, t, e, h) = push_starts r.witness r.fix in
      read_member (suc (suc f)) (codes "col") (codes "col\":" ++ (decimal n ++ tail_text))
        (decimal n ++ tail_text) {u = c ∷ t} refl
        (ap (λ (u : Text). read_value (decimal n ++ u)) e ∙ read_number n c t h)
      ∙ ap (after_member (read_members (suc (suc f))) (codes "col", Value.number n)) (sym e)
      ∙ read_witness f (codes "col", Value.number n) r.witness r.fix

  read_line :
      (f : ℕ)
      → read_members (suc (suc (suc (suc f)))) (
          b'"'
          ∷ (codes "line\":"
              ++ (decimal r.diag.span.line
                  ++ (codes ",\"col\":" ++ (decimal (r.diag.span.col + 1) ++ tail_text)))))
        ≡ some (
            (codes "line", Value.number r.diag.span.line)
            ∷ (codes "col", Value.number (r.diag.span.col + 1))
            ∷ tail_members)
  unfolding read_text
  read_line f =
      let n : ℕ = r.diag.span.line in
      let t : Text = codes "\"col\":" ++ (decimal (r.diag.span.col + 1) ++ tail_text) in
      read_member (suc (suc (suc f))) (codes "line") (codes "line\":" ++ (decimal n ++ b',' ∷ t))
        (decimal n ++ b',' ∷ t) refl (read_number n b',' t refl)
      ∙ after_comma (read_members (suc (suc (suc f)))) (codes "line", Value.number n) t (read_col f)

-- A rendering as JSON is one object, whatever bytes the path, the code, the message and the two
-- options have: a reader that asks for escaped control characters finds its members in order, each
-- text and number as it was in the diagnostic, and nothing after the object.
pub read_object-render_json :
    (r : Report) (fs : Files) → read_object (render_json r fs) ≡ some (members r fs)
unfolding read_object render_json tail_text tail_members read_text
read_object-render_json r fs = text_member _ (codes "path") _ (shown_path r fs) _ refl (
    text_member _ (codes "code") _ r.diag.code _ refl (
      text_member _ (codes "msg") _ r.msg _ refl
        (text_member _ (codes "file") _ (name fs r.diag.span) _ refl (read_line r fs _))))
