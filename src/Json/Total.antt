-- ===== src/Json/Total.antt =====
-- The parser ends on every text, within the fuel it is given (src/core/json.cpp).
use contextsnap.Base.{
  Bool-cases, Bytes, Option-cases, [], arith, codes, drop, inl, inr, length, length-drop, ltb, suc,
  zero, ℕ, ◌&&◌, ◌*◌, ◌+◌, ◌<◌, ◌==◌, ◌∷◌, ◌≤◌, Option, is_empty, none, some, starts_with, ◌++◌,
  false, refl, true, ◌≡◌, ◌≢◌,
}
use contextsnap.Json.Outcome.{
  Outcome, Within, Within-fail, Within-if, Within-weaken, Within-bind, left, stopped, Within-ends,
  out_of_fuel,
}
use contextsnap.Json.Number.{scan_number, is_sign, number_at, number_of, parse_number, read_number}
use contextsnap.Json.Strings.{
  combine, hex_digits, hex_value, is_high, parse_escape, parse_hex4, parse_string, string_loop,
  low_of, plain_escape,
}
use contextsnap.Json.Parser.{
  skip_whitespace, follow, literal, items_loop, max_depth, members_loop, parse_all, parse_array,
  parse_key, parse_object, parse_value, value_at, consume,
}
use contextsnap.Json.{DoubleText, Value, bool, item, member, no_items, no_members, null}

skip-le : (s : Bytes) → length (skip_whitespace s) ≤ length s
unfolding skip_whitespace
skip-le [] = omega arith
skip-le (c ∷ s) = ground (arith, skip-le s)

scan-le : (s : Bytes) → length (scan_number s).1 ≤ length s
unfolding scan_number
scan-le [] = omega arith
scan-le (c ∷ s) = ground (arith, scan-le s)

drop-le : (n : ℕ) (s : Bytes) → length (drop n s) ≤ length s
drop-le n s = omega (arith, length-drop n s)

Within-consume {ℓ} :
    {A : Type ℓ} {n : ℕ} (c : ℕ) (s : Bytes) {x : Outcome A} {f : Bytes → Outcome A}
    → Within n x
    → ((t : Bytes) → length t < length s → Within n (f t))
    → Within n (elim (consume c s) [ none ↦ x | some t ↦ f t ])
Within-consume c [] h k = h
Within-consume c (d ∷ s) {x = x} {f = f} h k = elim (Bool-cases (d == c)) [
  | inl same ↦ rw (same, consume) (k s (omega arith))
  | inr other ↦ rw (other, consume) h
]

module _ (total : ℕ) where
  hex_digits-Within : (n acc : ℕ) (s : Bytes) → Within (length s) (hex_digits total n acc s)
  unfolding hex_digits
  hex_digits-Within zero acc s = left (omega arith)
  hex_digits-Within (suc n) acc [] = Within-fail total (codes "truncated \\u escape") []
  hex_digits-Within (suc n) acc (c ∷ s) = elim (Option-cases (hex_value c)) [
    | inl bad ↦ rw (bad, hex_digits) (Within-fail total (codes "invalid hex digit in \\u escape") s)
    | inr (d, good) ↦
        rw (good, hex_digits) (Within-weaken (omega arith) (hex_digits-Within n (acc * 16 + d) s))
  ]

  parse_hex4-Within : (s : Bytes) → Within (length s) (parse_hex4 total s)
  unfolding parse_hex4
  parse_hex4-Within s =
      Within-if (ltb (length s) 4) (Within-fail total (codes "truncated \\u escape") s)
        (hex_digits-Within 4 0 s)

  low_of-le :
      (high : ℕ) (rest : Bytes) {o : Outcome ℕ}
      → Within (length rest) o
      → length (low_of high rest o).1 ≤ length rest
  low_of-le high rest (left {a} {s} h) = ground arith
  low_of-le high rest stopped = omega arith

  combine-le : (c : ℕ) (s : Bytes) → length (combine total c s).1 ≤ length s
  unfolding combine
  combine-le c [] = omega arith
  combine-le c (a ∷ []) = omega arith
  combine-le c (a ∷ b ∷ s) = elim (Bool-cases (is_high c && a == b'\\' && b == b'u')) [
    | inl pair ↦
        rw pair (low_of-le c (a ∷ b ∷ s) (Within-weaken (omega arith) (parse_hex4-Within s)))
    | inr single ↦ rw single (omega arith)
  ]

  parse_escape-Within : (out s : Bytes) → Within (length s) (parse_escape total out s)
  unfolding parse_escape
  parse_escape-Within out [] = Within-fail total (codes "unterminated escape sequence") []
  parse_escape-Within out (c ∷ s) = elim (Option-cases (plain_escape c)) [
    | inl other ↦
        rw (other, parse_escape)
          (Within-if (c == b'u')
            (Within-bind (parse_hex4-Within s) λ code t h. left (omega (arith, combine-le code t)))
            (Within-fail total (codes "invalid escape character") s))
    | inr (d, plain) ↦ rw (plain, parse_escape) (left (omega arith))
  ]

  string_loop-Within :
      (f : ℕ) (out s : Bytes) → length s < f → Within (length s) (string_loop total f out s)
  unfolding string_loop
  string_loop-Within zero out s h = absurd (omega arith)
  string_loop-Within (suc f) out [] h = Within-fail total (codes "unterminated string") []
  string_loop-Within (suc f) out (c ∷ s) h = Within-if (c == b'"') (left (omega arith)) (
      Within-if (c == b'\\')
        (Within-bind (parse_escape-Within out s)
          λ more t l. Within-weaken (omega arith) (string_loop-Within f more t (omega arith)))
        (Within-if (ltb c 0x20)
          (Within-fail total (codes "unescaped control character in string") (c ∷ s))
          (Within-weaken (omega arith) (string_loop-Within f (out ++ c ∷ []) s (omega arith)))))

  parse_string-Within : (s : Bytes) → Within (length s) (parse_string total s)
  unfolding parse_string
  parse_string-Within s = string_loop-Within (suc (length s)) [] s (omega arith)

  number_of-Within :
      (rest : Bytes) (v : Option Value) → Within (length rest) (number_of total rest v)
  number_of-Within rest none = Within-fail total (codes "number out of range") rest
  number_of-Within rest (some v) = left (omega arith)

  number_at-Within :
      (fp : DoubleText) (n : ℕ) (s sign : Bytes) (cut : Bytes × Bytes)
      → length cut.1 ≤ n
      → Within n (number_at fp total s sign cut)
  number_at-Within fp n s sign cut h =
      Within-if (is_empty (sign ++ cut.0)) (Within-fail total (codes "invalid number") s)
        (Within-weaken h (number_of-Within cut.1 (read_number fp (sign ++ cut.0) cut.0)))

  parse_number-Within : (fp : DoubleText) (s : Bytes) → Within (length s) (parse_number fp total s)
  unfolding parse_number
  parse_number-Within fp [] = Within-fail total (codes "invalid number") []
  parse_number-Within fp (c ∷ s) =
      Within-if (is_sign c)
        (number_at-Within fp (suc (length s)) (c ∷ s) (c ∷ []) (scan_number s)
          (omega (arith, scan-le s)))
        (number_at-Within fp (suc (length s)) (c ∷ s) [] (scan_number (c ∷ s)) (scan-le (c ∷ s)))

  literal-Within :
      (word : Bytes) (v : Value) (s : Bytes) → Within (length s) (literal total word v s)
  unfolding literal
  literal-Within word v s =
      Within-if (starts_with s word) (left (drop-le (length word) s))
        (Within-fail total (codes "invalid literal") s)

  follow-Within {ℓ} :
      {A : Type ℓ} (close : ℕ) (message : Bytes) (last : A) (more : A → A)
      (again : Bytes → Outcome A) (n : ℕ) (s : Bytes)
      → ((t : Bytes) → length t < length s → Within (length t) (again t))
      → length s ≤ n
      → Within n (follow total close message last more again s)
  follow-Within close message last more again n s h l =
      Within-consume b',' s
        (Within-consume close s (Within-fail total message s) λ t k. left (omega arith))
        λ t k. Within-bind (h t k) λ a u m. left (omega arith)

  parse_key-Within : (s : Bytes) → Within (length s) (parse_key total s)
  unfolding parse_key
  parse_key-Within s =
      Within-consume b'"' s (Within-fail total (codes "expected object key") s) λ t k.
        Within-bind (parse_string-Within t) λ key u l.
          Within-consume b':' (skip_whitespace u)
            (Within-fail total (codes "expected ':' after object key") (skip_whitespace u))
            λ rest m. left (omega (arith, skip-le u))

  module _ (nested : Bytes → Outcome Value)
      (fits : (t : Bytes) → Within (length t) (nested t)) where
    items_loop-Within :
        (f : ℕ) (s : Bytes) → length s < f → Within (length s) (items_loop total nested f s)
    unfolding items_loop
    items_loop-Within zero s h = absurd (omega arith)
    items_loop-Within (suc f) s h = Within-bind (fits s) λ v t l.
        follow-Within b']' (codes "expected ',' or ']' in array") (item v no_items) (item v)
          (items_loop total nested f) (length s) (skip_whitespace t)
          (λ u k. items_loop-Within f u (omega (arith, skip-le t))) (omega (arith, skip-le t))

    parse_array-Within : (s : Bytes) → Within (length s) (parse_array total nested s)
    unfolding parse_array
    parse_array-Within s =
        Within-consume b']' (skip_whitespace s)
          (Within-bind
            (items_loop-Within (suc (length (skip_whitespace s))) (skip_whitespace s) (omega arith))
            λ xs rest l. left (omega (arith, skip-le s)))
          λ rest k. left (omega (arith, skip-le s))

    members_loop-Within :
        (f : ℕ) (s : Bytes) → length s < f → Within (length s) (members_loop total nested f s)
    unfolding members_loop
    members_loop-Within zero s h = absurd (omega arith)
    members_loop-Within (suc f) s h = Within-bind (parse_key-Within (skip_whitespace s)) λ key t k.
        Within-bind (fits t) λ v u l.
          follow-Within b'}' (codes "expected ',' or '}' in object") (member key v no_members)
            (member key v) (members_loop total nested f) (length s) (skip_whitespace u)
            (λ w m. members_loop-Within f w (omega (arith, skip-le u, skip-le s)))
            (omega (arith, skip-le u, skip-le s))

    parse_object-Within : (s : Bytes) → Within (length s) (parse_object total nested s)
    unfolding parse_object
    parse_object-Within s =
        Within-consume b'}' (skip_whitespace s)
          (Within-bind
            (members_loop-Within (suc (length (skip_whitespace s))) (skip_whitespace s)
              (omega arith))
            λ xs rest l. left (omega (arith, skip-le s)))
          λ rest k. left (omega (arith, skip-le s))

    value_at-Within : (fp : DoubleText) (s : Bytes) → Within (length s) (value_at fp total nested s)
    unfolding value_at
    value_at-Within fp [] = Within-fail total (codes "unexpected end of input") []
    value_at-Within fp (c ∷ s) =
        Within-if (c == b'{') (Within-weaken (omega arith) (parse_object-Within s)) (
          Within-if (c == b'[') (Within-weaken (omega arith) (parse_array-Within s)) (
            Within-if (c == b'"')
              (Within-bind (parse_string-Within s) λ text rest l. left (omega arith))
              (Within-if (c == b't') (literal-Within (codes "true") (bool true) (c ∷ s)) (
                Within-if (c == b'f') (literal-Within (codes "false") (bool false) (c ∷ s)) (
                  Within-if (c == b'n') (literal-Within (codes "null") null (c ∷ s))
                    (parse_number-Within fp (c ∷ s)))))))

  parse_value-Within :
      (fp : DoubleText) (f d : ℕ) (s : Bytes)
      → d < f + d
      → f + d ≡ 130
      → Within (length s) (parse_value fp total f d s)
  unfolding parse_value
  parse_value-Within fp zero d s h k = absurd (omega arith)
  parse_value-Within fp (suc f) d s h k = elim (Bool-cases (ltb max_depth d)) [
    | inl deep ↦ rw deep (Within-fail total (codes "maximum nesting depth exceeded") s)
    | inr shallow ↦ rw shallow (
        Within-weaken (skip-le s) (
          value_at-Within (parse_value fp total f (d + 1))
            (λ t. parse_value-Within fp f (d + 1) t (ground arith) (omega arith)) fp
            (skip_whitespace s)))
  ]

-- The parser ends on every text: the loops take a byte or more in each round, and the depth of the
-- nesting is bounded.
pub parse_all_total : (fp : DoubleText) (text : Bytes) → parse_all fp text ≢ out_of_fuel
unfolding parse_all
parse_all_total fp text = Within-ends {n = 0} (
    Within-bind
      (parse_value-Within (length text) fp 130 0 (skip_whitespace text) (omega arith) refl)
      λ v s l. Within-if (is_empty (skip_whitespace s)) (left (omega arith)) (
        Within-fail (length text) (codes "trailing characters after top-level value")
          (skip_whitespace s)))
