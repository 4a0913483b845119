-- ===== src/View.antt =====
-- src/view.rs: how literals are spelled. A text is its bytes in UTF-8, and a character is its number.
pub mod Literals
pub mod Types
pub mod Spelled
pub mod Printed
pub mod Prints
pub mod RoundTrip
mod Examples
use vibelang.Base.{ℕ, ◌+◌, ◌/◌, ◌%◌, Text, List, [], ◌∷◌, ◌++◌, ◌==◌, ltb, if◌then◌else◌}

-- The bytes of a character in UTF-8, as `to_string` makes them.
unfoldable pub utf8 : ℕ → Text
utf8 c =
    if ltb c 0x80
    then c ∷ []
    else if ltb c 0x800
    then (0xc0 + c / 64) ∷ (0x80 + c % 64) ∷ []
    else if ltb c 0x10000
    then (0xe0 + c / 4096) ∷ (0x80 + c / 64 % 64) ∷ (0x80 + c % 64) ∷ []
    else (0xf0 + c / 262144) ∷ (0x80 + c / 4096 % 64) ∷ (0x80 + c / 64 % 64) ∷ (0x80 + c % 64) ∷ []

-- `esc`, on a character.
unfoldable pub esc : ℕ → Text
unfolding utf8
esc c =
    if c == 10
    then b'\\' ∷ b'n' ∷ []
    else if c == 9
    then b'\\' ∷ b't' ∷ []
    else if c == 13
    then b'\\' ∷ b'r' ∷ []
    else if c == 0
    then b'\\' ∷ b'0' ∷ []
    else if c == b'\\'
    then b'\\' ∷ b'\\' ∷ []
    else if c == b'"'
    then b'\\' ∷ b'"' ∷ []
    else utf8 c

-- A byte from 128 on is part of a character that `esc` leaves as it is.
unfoldable pub esc_byte : ℕ → Text
unfolding esc
esc_byte b = if ltb b 0x80 then esc b else b ∷ []

-- The characters of a text, each by `esc`, on the bytes of the text.
unfoldable pub esc_all : Text → Text
unfolding esc_byte
esc_all [] = []
esc_all (b ∷ s) = esc_byte b ++ esc_all s

-- `quote`.
unfoldable pub quote : Text → Text
unfolding esc_all
quote s = b'"' ∷ (esc_all s ++ b'"' ∷ [])

-- A character literal, as `pat` and `flat` write it.
unfoldable pub char_literal : ℕ → Text
unfolding esc
char_literal c = b'\'' ∷ (esc c ++ b'\'' ∷ [])
