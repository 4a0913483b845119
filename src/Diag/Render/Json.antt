-- ===== src/Diag/Render/Json.antt =====
-- src/diag.rs: a reader of JSON objects of texts and numbers, and what it makes of the rendering.
pub mod Texts
pub mod Members
use vibelang.Base.{
  ℕ, zero, suc, ◌+◌, ◌*◌, ◌-◌, Text, Bool, true, false, ◌&&◌, ◌||◌, Option, none, some, List, [],
  ◌∷◌, ◌++◌, ◌==◌, leb, ltb, length, take, drop, count_while, is_digit, decimal_value,
  if◌then◌else◌,
}
use vibelang.Base.Hex.{is_hex, digit_value}

-- Where the reader of a text stands: outside of an escape, after a backslash, or before the last
-- digits of a `\u` escape, with the value so far.
pub data State : Type 0 where
  normal escaping : State
  hexing : ℕ → ℕ → State

pub data Step : Type 0 where
  go : State → Text → Step
  done bad : Step

-- After a backslash.
abbrev escape_step : ℕ → Step
escape_step c =
    if c == b'"' || c == b'\\' || c == b'/'
    then Step.go State.normal (c ∷ [])
    else if c == b'b'
    then Step.go State.normal (8 ∷ [])
    else if c == b'f'
    then Step.go State.normal (12 ∷ [])
    else if c == b'n'
    then Step.go State.normal (10 ∷ [])
    else if c == b'r'
    then Step.go State.normal (13 ∷ [])
    else if c == b't'
    then Step.go State.normal (9 ∷ [])
    else if c == b'u'
    then Step.go (State.hexing 3 0) []
    else Step.bad

-- The last digit of a `\u` escape, of which only those of ASCII are read.
abbrev last_digit : ℕ → Step
last_digit v = if ltb v 128 then Step.go State.normal (v ∷ []) else Step.bad

-- What a byte of a JSON text does. A control character must be escaped.
unfoldable pub step : State → ℕ → Step
unfolding is_hex digit_value
step State.normal c =
    if c == b'"'
    then Step.done
    else if c == b'\\'
    then Step.go State.escaping []
    else if ltb c 0x20
    then Step.bad
    else Step.go State.normal (c ∷ [])
step State.escaping c = escape_step c
step (State.hexing zero v) c = if is_hex c then last_digit (v * 16 + digit_value c) else Step.bad
step (State.hexing (suc k) v) c =
    if is_hex c then Step.go (State.hexing k (v * 16 + digit_value c)) [] else Step.bad

-- The text up to its closing quote, behind `acc`, and what follows.
unfoldable pub read_text : State → Text → Text → Option (Text × Text)
unfolding step
read_text st acc [] = none
read_text st acc (c ∷ r) = elim (step st c) [
  | go st' out ↦ read_text st' (acc ++ out) r
  | done ↦ some (acc, r)
  | bad ↦ none
]

pub data Value : Type 0 where
  text : Text → Value
  number : ℕ → Value

abbrev pub as_text : Option (Text × Text) → Option (Value × Text)
as_text none = none
as_text (some (s, r)) = some (Value.text s, r)

-- A number without a leading zero.
abbrev pub as_number : Text → ℕ → Option (Value × Text)
as_number s zero = none
as_number s (suc zero) = some (Value.number (decimal_value 0 (take 1 s)), drop 1 s)
as_number [] (suc (suc n)) = none
as_number (c ∷ s) (suc (suc n)) =
    if c == b'0'
    then none
    else some (Value.number (decimal_value 0 (c ∷ take (suc n) s)), drop (suc n) s)

unfoldable pub read_value : Text → Option (Value × Text)
unfolding read_text decimal_value
read_value [] = none
read_value (c ∷ s) =
    if c == b'"'
    then as_text (read_text State.normal [] s)
    else as_number (c ∷ s) (count_while is_digit (c ∷ s))

abbrev pub Member : Type 0
Member = Text × Value

-- What follows a member: another one, or the end of the object and of the input.
unfoldable pub after_member : (Text → Option (List Member)) → Member → Text → Option (List Member)
after_member more m [] = none
after_member more m (c ∷ s) =
    if c == b','
    then elim (more s) [ none ↦ none | some ms ↦ some (m ∷ ms) ]
    else if c == b'}' && length s == 0
    then some (m ∷ [])
    else none

unfoldable pub after_key : (Text → Option (List Member)) → Text → Text → Option (List Member)
unfolding read_value after_member
after_key more k [] = none
after_key more k (c ∷ s) =
    if c == b':'
    then elim (read_value s) [ none ↦ none | some (v, r) ↦ after_member more (k, v) r ]
    else none

-- Members, up to the end of the object, on fuel for one each.
unfoldable pub read_members : ℕ → Text → Option (List Member)
unfolding after_key read_text
read_members zero s = none
read_members (suc f) [] = none
read_members (suc f) (c ∷ s) =
    if c == b'"'
    then elim (read_text State.normal [] s) [
      | none ↦ none
      | some (k, r) ↦ after_key (read_members f) k r
    ]
    else none

-- An object that is not empty.
unfoldable pub read_object : Text → Option (List Member)
read_object [] = none
read_object (c ∷ s) = if c == b'{' then read_members (length s) s else none
