-- ===== src/Diag/Render/Json/Texts.antt =====
-- src/diag.rs, `json_escape`: a text that is escaped is read back.
use vibelang.Base.{
  ℕ, suc, ◌+◌, ◌*◌, ◌/◌, ◌%◌, ◌<◌, Text, true, some, [], ◌∷◌, ◌++◌, ◌≡◌, refl, sym, ap, ◌∙◌, arith,
  ◌==◌, ltb, append_assoc, append-nil, Bool-cases, inl, inr,
}
use vibelang.Base.Hex.{hex, hex_digit, digit_value-hex_digit, is_hex-hex_digit}
use vibelang.Diag.Render.{json_char, json_escape}
use vibelang.Diag.Render.Json.{State, Step, step, read_text}

read_text-go :
    (st : State) (c : ℕ) {st' : State} {out : Text} (acc r : Text)
    → step st c ≡ Step.go st' out
    → read_text st acc (c ∷ r) ≡ read_text st' (acc ++ out) r
unfolding read_text
read_text-go st c acc r h = rw (read_text, h) refl

read_text-silent :
    (st : State) (c : ℕ) {st' : State} (acc r : Text)
    → step st c ≡ Step.go st' []
    → read_text st acc (c ∷ r) ≡ read_text st' acc r
read_text-silent st c {st'} acc r h =
    read_text-go st c acc r h ∙ ap (λ (a : Text). read_text st' a r) (append-nil acc)

hexing_step :
    (k v d : ℕ) (acc r : Text)
    → d < 16
    → read_text (State.hexing (suc k) v) acc (hex_digit d ∷ r)
      ≡ read_text (State.hexing k (v * 16 + d)) acc r
unfolding step
hexing_step k v d acc r h =
    read_text-silent (State.hexing (suc k) v) (hex_digit d) acc r
      (rw (step, is_hex-hex_digit d h, digit_value-hex_digit d h) refl)

hexing_last :
    (v d : ℕ) (acc r : Text)
    → d < 16
    → v * 16 + d < 128
    → read_text (State.hexing 0 v) acc (hex_digit d ∷ r)
      ≡ read_text State.normal (acc ++ (v * 16 + d) ∷ []) r
unfolding step
hexing_last v d acc r h small =
    let e : ltb (v * 16 + d) 128 ≡ true = ground (arith, small) in
    read_text-go (State.hexing 0 v) (hex_digit d) acc r
      (rw (step, is_hex-hex_digit d h, digit_value-hex_digit d h, e) refl)

-- A control character by its four digits.
hex_char :
    (c : ℕ) (acc r : Text)
    → c < 0x20
    → read_text (State.hexing 3 0) acc (hex 4 c ++ r) ≡ read_text State.normal (acc ++ c ∷ []) r
unfolding hex
hex_char c acc r h =
    hexing_step 2 0 (c / 16 / 16 / 16 % 16) acc _ (omega arith)
    ∙ hexing_step 1 (0 * 16 + c / 16 / 16 / 16 % 16) (c / 16 / 16 % 16) acc _ (omega arith)
    ∙ hexing_step 0 ((0 * 16 + c / 16 / 16 / 16 % 16) * 16 + c / 16 / 16 % 16) (c / 16 % 16) acc _
        (omega arith)
    ∙ hexing_last (((0 * 16 + c / 16 / 16 / 16 % 16) * 16 + c / 16 / 16 % 16) * 16 + c / 16 % 16)
        (c % 16) acc r (omega arith) (omega arith)
    ∙ ap (λ (x : ℕ). read_text State.normal (acc ++ x ∷ []) r) (omega arith)

escape_pair :
    (e d c : ℕ) (acc r : Text)
    → step State.escaping e ≡ Step.go State.normal (d ∷ [])
    → (c == d) ≡ true
    → read_text State.normal acc (b'\\' ∷ e ∷ r) ≡ read_text State.normal (acc ++ c ∷ []) r
unfolding step
escape_pair e d c acc r h same =
    let q : d ≡ c = ground (arith, same) in
    read_text-silent State.normal b'\\' acc (e ∷ r) refl
    ∙ read_text-go State.escaping e acc r h
    ∙ ap (λ (x : ℕ). read_text State.normal (acc ++ x ∷ []) r) q

read_text-json_char :
    (c : ℕ) (acc r : Text)
    → read_text State.normal acc (json_char c ++ r) ≡ read_text State.normal (acc ++ c ∷ []) r
unfolding step json_char
read_text-json_char c acc r = elim (Bool-cases (c == b'"')) [
  | inl y ↦ rw (json_char, y) (escape_pair b'"' b'"' c acc r refl y)
  | inr n1 ↦ elim (Bool-cases (c == b'\\')) [
    | inl y ↦ rw (json_char, n1, y) (escape_pair b'\\' b'\\' c acc r refl y)
    | inr n2 ↦ elim (Bool-cases (c == 10)) [
      | inl y ↦ rw (json_char, n1, n2, y) (escape_pair b'n' 10 c acc r refl y)
      | inr n3 ↦ elim (Bool-cases (c == 9)) [
        | inl y ↦ rw (json_char, n1, n2, n3, y) (escape_pair b't' 9 c acc r refl y)
        | inr n4 ↦ elim (Bool-cases (ltb c 0x20)) [
          | inl y ↦
              rw (json_char, n1, n2, n3, n4, y)
                (read_text-silent State.normal b'\\' acc (b'u' ∷ (hex 4 c ++ r)) refl
                  ∙ read_text-silent State.escaping b'u' acc (hex 4 c ++ r) refl
                  ∙ hex_char c acc r (ground (arith, y)))
          | inr n5 ↦
              rw (json_char, n1, n2, n3, n4, n5)
                (read_text-go State.normal c acc r (rw (step, n1, n2, n5) refl))
        ]
      ]
    ]
  ]
]

-- An escaped text is read back up to the quote that closes it, behind what was read before.
pub read_text-json_escape :
    (s acc r : Text) → read_text State.normal acc (json_escape s ++ b'"' ∷ r) ≡ some (acc ++ s, r)
unfolding json_escape read_text step
read_text-json_escape [] acc r = ap (λ (t : Text). some (t, r)) (sym (append-nil acc))
read_text-json_escape (c ∷ s) acc r =
    ap (read_text State.normal acc) (append_assoc (json_char c) (json_escape s) (b'"' ∷ r))
    ∙ read_text-json_char c acc (json_escape s ++ b'"' ∷ r)
    ∙ read_text-json_escape s (acc ++ c ∷ []) r
    ∙ ap (λ (t : Text). some (t, r)) (append_assoc acc (c ∷ []) s)
