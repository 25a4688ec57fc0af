-- ===== src/Ulid.antt =====
-- include/contextsnap/core/ulid.hpp and src/core/ulid.cpp: ULID identifiers. The clock and the
-- random words are arguments; a time is a count of milliseconds since the epoch.
pub mod Alphabet
pub mod RoundTrip
pub mod Order
pub mod Valid
mod Tests
use contextsnap.Base.{
  ℕ, zero, suc, ◌+◌, ◌-◌, ◌*◌, ◌/◌, ◌%◌, ◌^◌, min, Bytes, Bool, true, false, ◌&&◌, Option, none,
  some, List, [], ◌∷◌, codes, length, get_or, drop, is_empty, all, ltb, leb, ◌==◌, if◌then◌else◌,
  ◌||◌,
}
use contextsnap.Base.Int.{ℤ, pos, pos_part}

abbrev pub alphabet : Bytes
alphabet = codes "0123456789ABCDEFGHJKMNPQRSTVWXYZ"

abbrev pub timestamp_chars : ℕ
timestamp_chars = 10

abbrev pub ulid_length : ℕ
ulid_length = 26

-- The loop over kAlphabet[10..31] of `decode_char`.
unfoldable pub search_alphabet : Bytes → ℕ → ℕ → Option ℕ
search_alphabet [] i upper = none
search_alphabet (c ∷ cs) i upper = if c == upper then some i else search_alphabet cs (i + 1) upper

-- `none` is the source's -1.
unfoldable pub decode_char : ℕ → Option ℕ
unfolding search_alphabet
decode_char c =
    if leb b'0' c && leb c b'9'
    then some (c - b'0')
    else if c == b'i' || c == b'I' || c == b'l' || c == b'L'
    then some 1
    else if c == b'o' || c == b'O'
    then some 0
    else search_alphabet (drop 10 alphabet) 10 (if leb b'a' c && leb c b'z' then c - 32 else c)

-- `for (i = n; i-- > 0;) { out[at + i] = kAlphabet[word & 31]; word >>= 5; }`: the characters that
-- the loop writes, before those that are already there.
unfoldable pub write_base32 : ℕ → ℕ → Bytes → Bytes
write_base32 zero word after = after
write_base32 (suc n) word after = write_base32 n (word / 32) (get_or alphabet (word % 32) 0 ∷ after)

-- 48 bits of time, and the low 40 bits of each random word. A time before the epoch counts as 0.
unfoldable pub generate_ulid : ℤ → ℕ → ℕ → Bytes
unfolding write_base32
generate_ulid millis random_hi random_lo =
    write_base32 10 (pos_part millis % 2 ^ 48)
      (write_base32 8 (random_hi % 2 ^ 40) (write_base32 8 (random_lo % 2 ^ 40) []))

abbrev pub is_digit_char : ℕ → Bool
is_digit_char c = elim (decode_char c) [ none ↦ false | some v ↦ true ]

-- `decode_char(text[0]) <= 7`; the text is not empty where it is called.
abbrev first_le_7 : Bytes → Bool
first_le_7 [] = true
first_le_7 (c ∷ cs) = elim (decode_char c) [ none ↦ true | some v ↦ leb v 7 ]

unfoldable pub is_valid_ulid : Bytes → Bool
unfolding decode_char
is_valid_ulid text =
    if length text == ulid_length
    then (if all is_digit_char text then first_le_7 text else false)
    else false

-- The loop of `ulid_timestamp` over `n` characters; a `uint64_t` keeps 64 bits. The low five bits
-- of the shifted value are 0, so `|` is a sum. A malformed text gives the epoch.
unfoldable pub read_base32 : ℕ → Bytes → ℕ → Option ℕ
read_base32 zero text millis = some millis
read_base32 (suc n) [] millis = none
read_base32 (suc n) (c ∷ cs) millis = elim (decode_char c) [
  | none ↦ none
  | some v ↦ read_base32 n cs (millis * 32 % 2 ^ 64 + v)
]

abbrev or_epoch : Option ℕ → ℕ
or_epoch none = 0
or_epoch (some n) = n

unfoldable pub ulid_timestamp : Bytes → ℕ
unfolding read_base32 decode_char
ulid_timestamp text =
    if ltb (length text) timestamp_chars then 0 else or_epoch (read_base32 timestamp_chars text 0)

-- The last `len` characters.
unfoldable pub short_id : Bytes → ℕ → Bytes
short_id ulid len =
    if len == 0 || is_empty ulid then [] else drop (length ulid - min len (length ulid)) ulid
