-- ===== src/Json/Quoted.antt =====
-- Escaped strings are read back (src/core/json.cpp, `parse_string`).
use contextsnap.Base.{
  Bytes, [], ap, arith, false, length, le→leb, ltb, refl, some, suc, ℕ, ◌%◌, ◌++◌, ◌/◌, ◌<◌, ◌∷◌,
  ◌≡◌, ◌≤◌, ==_iff, Bool, Bool-cases, append-nil, append_assoc, inl, inr, length-append, sym, true,
  zero, ◌*◌, ◌+◌, ◌==◌, ◌||◌, ◌∙◌, ◌⊎◌,
}
use contextsnap.Json.Escape.{append_utf8, escape_char, hex_digit, escape}
use contextsnap.Json.Outcome.{parsed}
use contextsnap.Json.Strings.{
  combine, hex_value, is_high, parse_escape, parse_hex4, string_loop, hex_digits, parse_string,
  plain_escape,
}

hex_value-hex_digit : (d : ℕ) → d < 16 → hex_value (hex_digit d) ≡ some d
unfolding hex_value hex_digit
hex_value-hex_digit d h = ground arith

combine_plain : (total c : ℕ) (s : Bytes) → is_high c ≡ false → combine total c s ≡ (c, s)
unfolding combine
combine_plain total c [] h = refl
combine_plain total c (a ∷ []) h = refl
combine_plain total c (a ∷ b ∷ s) h = rw h refl

append_utf8_plain : (out : Bytes) (c : ℕ) → c ≤ 0x7F → append_utf8 out c ≡ out ++ c ∷ []
unfolding append_utf8
append_utf8_plain out c h = rw (le→leb c 0x7F h) refl

hex_digits_step :
    (total n acc c d : ℕ) (s : Bytes)
    → hex_value c ≡ some d
    → hex_digits total (suc n) acc (c ∷ s) ≡ hex_digits total n (acc * 16 + d) s
unfolding hex_digits
hex_digits_step total n acc c d s h = rw (h, hex_digits) refl

parse_hex4_control :
    (total c : ℕ) (t : Bytes)
    → c < 0x20
    → parse_hex4 total (b'0' ∷ b'0' ∷ hex_digit (c / 16) ∷ hex_digit (c % 16) ∷ t) ≡ parsed c t
unfolding parse_hex4
parse_hex4_control total c t h =
    let enough : ltb (suc (suc (suc (suc (length t))))) 4 ≡ false = ground arith in
    let high = hex_value-hex_digit (c / 16) (omega arith) in
    let low = hex_value-hex_digit (c % 16) (omega arith) in
    rw enough (
      hex_digits_step total 1 0 (hex_digit (c / 16)) (c / 16) (hex_digit (c % 16) ∷ t) high
      ∙ hex_digits_step total 0 (0 * 16 + c / 16) (hex_digit (c % 16)) (c % 16) t low
      ∙ ap (λ n. parsed n t) (omega arith))

-- The ways in which a character is printed.
abbrev ByLetter : ℕ → Type 0
ByLetter c = (e : ℕ) × (escape_char c ≡ b'\\' ∷ e ∷ []) × (plain_escape e ≡ some c)

abbrev ByCode : ℕ → Type 0
ByCode c =
    (c < 0x20)
    × (escape_char c ≡ b'\\' ∷ b'u' ∷ b'0' ∷ b'0' ∷ hex_digit (c / 16) ∷ hex_digit (c % 16) ∷ [])

abbrev ByItself : ℕ → Type 0
ByItself c =
    (escape_char c ≡ c ∷ []) × ((c == b'"') ≡ false) × ((c == b'\\') ≡ false) × (ltb c 0x20 ≡ false)

letter_of :
    (c k e : ℕ) → c ≡ k → escape_char k ≡ b'\\' ∷ e ∷ [] → plain_escape e ≡ some k → ByLetter c
letter_of c k e q printed read = (e, ap escape_char q ∙ printed, read ∙ ap (λ n. some n) (sym q))

abbrev has_letter : ℕ → Bool
has_letter c = c == b'"' || c == b'\\' || c == 8 || c == 12 || c == 10 || c == 13 || c == 9

letter_cases : (c : ℕ) → has_letter c ≡ true → ByLetter c
unfolding escape_char plain_escape
letter_cases c h = elim (Bool-cases (c == b'"')) [
  | inl q ↦ letter_of c b'"' b'"' ((==_iff c b'"').0 q) refl refl
  | inr n0 ↦ elim (Bool-cases (c == b'\\')) [
    | inl q ↦ letter_of c b'\\' b'\\' ((==_iff c b'\\').0 q) refl refl
    | inr n1 ↦ elim (Bool-cases (c == 8)) [
      | inl q ↦ letter_of c 8 b'b' ((==_iff c 8).0 q) refl refl
      | inr n2 ↦ elim (Bool-cases (c == 12)) [
        | inl q ↦ letter_of c 12 b'f' ((==_iff c 12).0 q) refl refl
        | inr n3 ↦ elim (Bool-cases (c == 10)) [
          | inl q ↦ letter_of c 10 b'n' ((==_iff c 10).0 q) refl refl
          | inr n4 ↦ elim (Bool-cases (c == 13)) [
            | inl q ↦ letter_of c 13 b'r' ((==_iff c 13).0 q) refl refl
            | inr n5 ↦
                letter_of c 9 b't' ((==_iff c 9).0 (rw (n0, n1, n2, n3, n4, n5) at h)) refl refl
          ]
        ]
      ]
    ]
  ]
]

escape_char_cases : (c : ℕ) → ByLetter c ⊎ (ByCode c ⊎ ByItself c)
unfolding escape_char
escape_char_cases c = elim (Bool-cases (has_letter c)) [
  | inl letter ↦ inl (letter_cases c letter)
  | inr other ↦ inr (elim (Bool-cases (ltb c 0x20)) [
    | inl control ↦ inl (ground arith, ground arith)
    | inr plain ↦ inr (ground arith, ground arith, ground arith, plain)
  ])
]

module _ (total : ℕ) (out : Bytes) where
  escape_control :
      (c : ℕ) (t : Bytes)
      → c < 0x20
      → parse_escape total out (b'u' ∷ b'0' ∷ b'0' ∷ hex_digit (c / 16) ∷ hex_digit (c % 16) ∷ t)
        ≡ parsed (out ++ c ∷ []) t
  unfolding parse_escape
  escape_control c t h =
      let low : is_high c ≡ false = ground arith in
      rw (parse_hex4_control total c t h, combine_plain total c t low)
        (ap (λ o. parsed o t) (append_utf8_plain out c (omega arith)))

  escape_letter :
      (c e : ℕ) (t : Bytes)
      → plain_escape e ≡ some c
      → parse_escape total out (e ∷ t) ≡ parsed (out ++ c ∷ []) t
  unfolding parse_escape
  escape_letter c e t read = rw (read, parse_escape) refl

  -- One escaped character takes one round.
  string_loop-escape_char :
      (f c : ℕ) (t : Bytes)
      → string_loop total (suc f) out (escape_char c ++ t) ≡ string_loop total f (out ++ c ∷ []) t
  unfolding string_loop
  string_loop-escape_char f c t = elim (escape_char_cases c) [
    | inl (e, printed, read) ↦ rw printed (escaped (e ∷ t) (escape_letter c e t read))
    | inr (inl (control, printed)) ↦ rw printed (
        escaped (b'u' ∷ b'0' ∷ b'0' ∷ hex_digit (c / 16) ∷ hex_digit (c % 16) ∷ t)
          (escape_control c t control))
    | inr (inr (printed, quote, slash, plain)) ↦ rw (printed, quote, slash, plain) refl
  ]
    where
      escaped :
          (s : Bytes)
          → parse_escape total out s ≡ parsed (out ++ c ∷ []) t
          → string_loop total (suc f) out (b'\\' ∷ s) ≡ string_loop total f (out ++ c ∷ []) t
      escaped s h = rw h refl

-- The loop reads an escaped string up to the closing quote.
string_loop-escape :
    (total f : ℕ) (out s rest : Bytes)
    → length s < f
    → string_loop total f out (escape s ++ b'"' ∷ rest) ≡ parsed (out ++ s) rest
unfolding escape
string_loop-escape total zero out s rest h = absurd (omega arith)
string_loop-escape total (suc f) out [] rest h = unfold string_loop in rw (append-nil out) refl
string_loop-escape total (suc f) out (c ∷ s) rest h =
    rw (append_assoc (escape_char c) (escape s) (b'"' ∷ rest)) (
      string_loop-escape_char total out f c (escape s ++ b'"' ∷ rest)
      ∙ string_loop-escape total f (out ++ c ∷ []) s rest (omega arith)
      ∙ ap (λ o. parsed o rest) (append_assoc out (c ∷ []) s))

escape_char_pos : (c : ℕ) → 0 < length (escape_char c)
unfolding escape_char
escape_char_pos c = ground arith

length-le-escape : (s : Bytes) → length s ≤ length (escape s)
unfolding escape
length-le-escape [] = omega arith
length-le-escape (c ∷ s) =
    omega (arith, length-append (escape_char c) (escape s), escape_char_pos c, length-le-escape s)

pub parse_string-escape :
    (total : ℕ) (s rest : Bytes) → parse_string total (escape s ++ b'"' ∷ rest) ≡ parsed s rest
unfolding parse_string
parse_string-escape total s rest =
    string_loop-escape total (suc (length (escape s ++ b'"' ∷ rest))) [] s rest
      (omega (arith, length-append (escape s) (b'"' ∷ rest), length-le-escape s))
