-- ===== src/Json/Escape.antt =====
-- src/core/json.cpp: `append_utf8` and `escape`.
use contextsnap.Base.{Bytes, [], if◌then◌else◌, leb, ltb, ℕ, ◌%◌, ◌++◌, ◌+◌, ◌-◌, ◌/◌, ◌==◌, ◌∷◌}

-- A code point below 2 ^ 21 as UTF-8; the `|` of a marker and smaller bits is a sum.
unfoldable pub append_utf8 : Bytes → ℕ → Bytes
append_utf8 out c =
    if leb c 0x7F
    then out ++ c ∷ []
    else if leb c 0x7FF
    then out ++ (0xC0 + c / 64) ∷ (0x80 + c % 64) ∷ []
    else if leb c 0xFFFF
    then out ++ (0xE0 + c / 4096) ∷ (0x80 + c / 64 % 64) ∷ (0x80 + c % 64) ∷ []
    else out
      ++ (0xF0 + c / 262144) ∷ (0x80 + c / 4096 % 64) ∷ (0x80 + c / 64 % 64) ∷ (0x80 + c % 64) ∷ []

-- A digit of `%x`.
unfoldable pub hex_digit : ℕ → ℕ
hex_digit d = if ltb d 10 then b'0' + d else b'a' + (d - 10)

unfoldable pub escape_char : ℕ → Bytes
unfolding hex_digit
escape_char c =
    if c == b'"'
    then b'\\' ∷ b'"' ∷ []
    else if c == b'\\'
    then b'\\' ∷ b'\\' ∷ []
    else if c == 8
    then b'\\' ∷ b'b' ∷ []
    else if c == 12
    then b'\\' ∷ b'f' ∷ []
    else if c == 10
    then b'\\' ∷ b'n' ∷ []
    else if c == 13
    then b'\\' ∷ b'r' ∷ []
    else if c == 9
    then b'\\' ∷ b't' ∷ []
    else if ltb c 0x20
    then b'\\' ∷ b'u' ∷ b'0' ∷ b'0' ∷ hex_digit (c / 16) ∷ hex_digit (c % 16) ∷ []
    else c ∷ []

unfoldable pub escape : Bytes → Bytes
unfolding escape_char
escape [] = []
escape (c ∷ s) = escape_char c ++ escape s
