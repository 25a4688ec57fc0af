-- ===== src/Json/Strings.antt =====
-- src/core/json.cpp: `Parser::parse_hex4` and `Parser::parse_string`.
use contextsnap.Base.{
  Bool, Bytes, Option, [], codes, if◌then◌else◌, leb, length, ltb, none, some, suc, zero, ℕ, ◌&&◌,
  ◌*◌, ◌++◌, ◌+◌, ◌-◌, ◌==◌, ◌∷◌,
}
use contextsnap.Json.Escape.{append_utf8}
use contextsnap.Json.Outcome.{Outcome, bind, fail, failed, out_of_fuel, parsed}

unfoldable pub hex_value : ℕ → Option ℕ
hex_value c =
    if leb b'0' c && leb c b'9'
    then some (c - b'0')
    else if leb b'a' c && leb c b'f'
    then some (c - b'a' + 10)
    else if leb b'A' c && leb c b'F'
    then some (c - b'A' + 10)
    else none

-- The rounds of the loop that are left; four digits are enough for 16 bits, so `|` is a sum.
unfoldable pub hex_digits : ℕ → ℕ → ℕ → Bytes → Outcome ℕ
unfolding hex_value
hex_digits total zero acc s = parsed acc s
hex_digits total (suc n) acc [] = fail total (codes "truncated \\u escape") []
hex_digits total (suc n) acc (c ∷ s) = elim (hex_value c) [
  | none ↦ fail total (codes "invalid hex digit in \\u escape") s
  | some d ↦ hex_digits total n (acc * 16 + d) s
]

unfoldable pub parse_hex4 : ℕ → Bytes → Outcome ℕ
unfolding hex_digits
parse_hex4 total s =
    if ltb (length s) 4 then fail total (codes "truncated \\u escape") s else hex_digits total 4 0 s

abbrev pub is_high : ℕ → Bool
is_high c = leb 0xD800 c && leb c 0xDBFF

abbrev pub is_low : ℕ → Bool
is_low c = leb 0xDC00 c && leb c 0xDFFF

-- A high surrogate with a low one behind it is one code point; `rest` is the text behind the high
-- one, where the code goes back to if there is no low one.
abbrev pub low_of : ℕ → Bytes → Outcome ℕ → ℕ × Bytes
low_of high rest (parsed low s) =
    if is_low low then (0x10000 + (high - 0xD800) * 1024 + (low - 0xDC00), s) else (high, rest)
low_of high rest (failed e) = (high, rest)
low_of high rest out_of_fuel = (high, rest)

unfoldable pub combine : ℕ → ℕ → Bytes → ℕ × Bytes
unfolding parse_hex4
combine total high (a ∷ b ∷ s) =
    if is_high high && a == b'\\' && b == b'u'
    then low_of high (a ∷ b ∷ s) (parse_hex4 total s)
    else (high, a ∷ b ∷ s)
combine total high s = (high, s)

-- The escapes of one character.
unfoldable pub plain_escape : ℕ → Option ℕ
plain_escape c =
    if c == b'"'
    then some b'"'
    else if c == b'\\'
    then some b'\\'
    else if c == b'/'
    then some b'/'
    else if c == b'b'
    then some 8
    else if c == b'f'
    then some 12
    else if c == b'n'
    then some 10
    else if c == b'r'
    then some 13
    else if c == b't'
    then some 9
    else none

-- The text behind a backslash: what is appended to `out`.
unfoldable pub parse_escape : ℕ → Bytes → Bytes → Outcome Bytes
unfolding plain_escape combine append_utf8
parse_escape total out [] = fail total (codes "unterminated escape sequence") []
parse_escape total out (c ∷ s) = elim (plain_escape c) [
  | some b ↦ parsed (out ++ b ∷ []) s
  | none ↦
      if c == b'u'
      then bind (parse_hex4 total s) (λ code t.
        let (point, rest) = combine total code t in parsed (append_utf8 out point) rest)
      else fail total (codes "invalid escape character") s
]

-- The loop of `parse_string`, behind the opening quote. Each round takes a character or more.
unfoldable pub string_loop : ℕ → ℕ → Bytes → Bytes → Outcome Bytes
unfolding parse_escape
string_loop total zero out s = out_of_fuel
string_loop total (suc f) out [] = fail total (codes "unterminated string") []
string_loop total (suc f) out (c ∷ s) =
    let after_escape = bind (parse_escape total out s) (string_loop total f) in
    let after_char = string_loop total f (out ++ c ∷ []) s in
    if c == b'"'
    then parsed out s
    else if c == b'\\'
    then after_escape
    else if ltb c 0x20
    then fail total (codes "unescaped control character in string") (c ∷ s)
    else after_char

unfoldable pub parse_string : ℕ → Bytes → Outcome Bytes
unfolding string_loop
parse_string total s = string_loop total (suc (length s)) [] s
