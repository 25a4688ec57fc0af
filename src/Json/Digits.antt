-- ===== src/Json/Digits.antt =====
-- Printed integers are read back (src/core/json.cpp, `parse_number`).
use contextsnap.Base.{
  Bool, Bool-cases, Bytes, [], all, and_parts, any, ap, arith, false, inl, inr, is_empty, ltb, not,
  refl, some, suc, true, zero, ℕ, ◌%◌, ◌++◌, ◌+◌, ◌/◌, ◌<◌, ◌^◌, ◌||◌, ◌∙◌, ◌∷◌, ◌≡◌, le→leb,
  lt→ltb, ◌==◌,
}
use contextsnap.Base.Int.{negsuc, pos, ℤ}
use contextsnap.Base.Decimal.{digits_onto, nat_string, int_string}
use contextsnap.Base.Cuts.{begins}
use contextsnap.Json.{DoubleText, int}
use contextsnap.Json.Number.{
  is_digit, is_fraction, is_sign, read_number, scan_number, value_from, parse_number, stoll,
  unsigned_part,
}
use contextsnap.Json.Outcome.{parsed}

value_from-digits_onto :
    (f n : ℕ) (t : Bytes) → n < f → value_from 0 (digits_onto f n t) ≡ value_from n t
unfolding value_from digits_onto
value_from-digits_onto zero n t h = absurd (omega arith)
value_from-digits_onto (suc f) n t h = elim (Bool-cases (ltb n 10)) [
  | inl small ↦ rw small (ap (λ k. value_from k t) (omega arith))
  | inr large ↦ rw large (
      value_from-digits_onto f (n / 10) ((b'0' + n % 10) ∷ t) (ground arith)
      ∙ ap (λ k. value_from k t) (omega arith))
]

all_digits-digits_onto :
    (f n : ℕ) (t : Bytes) → all is_digit t ≡ true → all is_digit (digits_onto f n t) ≡ true
unfolding digits_onto
all_digits-digits_onto zero n t h = h
all_digits-digits_onto (suc f) n t h = elim (Bool-cases (ltb n 10)) [
  | inl small ↦ rw small (ground arith)
  | inr large ↦ rw large (all_digits-digits_onto f (n / 10) ((b'0' + n % 10) ∷ t) (ground arith))
]

is_empty-digits_onto : (f n c : ℕ) (t : Bytes) → is_empty (digits_onto f n (c ∷ t)) ≡ false
unfolding digits_onto
is_empty-digits_onto zero n c t = refl
is_empty-digits_onto (suc f) n c t = elim (Bool-cases (ltb n 10)) [
  | inl small ↦ rw small refl
  | inr large ↦ rw large (is_empty-digits_onto f (n / 10) (b'0' + n % 10) (c ∷ t))
]

pub is_empty-nat_string : (n : ℕ) → is_empty (nat_string n) ≡ false
unfolding nat_string digits_onto
is_empty-nat_string n = elim (Bool-cases (ltb n 10)) [
  | inl small ↦ rw small refl
  | inr large ↦ rw large (is_empty-digits_onto n (n / 10) (b'0' + n % 10) [])
]

-- A text that ends the literal of a number.
abbrev pub ends_number : ℕ → Bool
ends_number c = not (is_digit c || is_fraction c)

pub scan_number-digits :
    (s rest : Bytes)
    → all is_digit s ≡ true
    → begins ends_number rest ≡ true
    → scan_number (s ++ rest) ≡ (s, rest)
unfolding scan_number
scan_number-digits [] [] h k = refl
scan_number-digits [] (c ∷ rest) h k = elim (Bool-cases (is_digit c || is_fraction c)) [
  | inl on ↦ absurd (let off : false ≡ true = rw on at k in ground arith)
  | inr off ↦ rw off refl
]
scan_number-digits (c ∷ s) rest h k =
    let (digit, more) = and_parts (is_digit c) (all is_digit s) h in
    rw (digit, scan_number-digits s rest more k) refl

not_fraction : (c : ℕ) → is_digit c ≡ true → is_fraction c ≡ false
not_fraction c h = ground arith

not_sign : (c : ℕ) → is_digit c ≡ true → is_sign c ≡ false
not_sign c h = ground arith

any_fraction-digits : (s : Bytes) → all is_digit s ≡ true → any is_fraction s ≡ false
any_fraction-digits [] h = refl
any_fraction-digits (c ∷ s) h =
    let (digit, more) = and_parts (is_digit c) (all is_digit s) h in
    rw (not_fraction c digit) (any_fraction-digits s more)

stoll_positive :
    (c n : ℕ) (s : Bytes)
    → is_digit c ≡ true
    → value_from 0 (c ∷ s) ≡ n
    → n < 2 ^ 63
    → stoll (c ∷ s) ≡ some (pos n)
unfolding stoll unsigned_part
stoll_positive c n s digit v small =
    let minus : (c == b'-') ≡ false = ground arith in
    rw (not_sign c digit, minus, v, lt→ltb n (2 ^ 63) small) refl

stoll_negative :
    (n : ℕ) (s : Bytes)
    → is_empty s ≡ false
    → value_from 0 s ≡ suc n
    → n < 2 ^ 63
    → stoll (b'-' ∷ s) ≡ some (negsuc n)
unfolding stoll unsigned_part
stoll_negative n s full v small = rw (full, v, le→leb (suc n) (2 ^ 63) small) refl

module _ (fp : DoubleText) (total : ℕ) where
  read_integer :
      (z : ℤ) (literal taken : Bytes)
      → all is_digit taken ≡ true
      → stoll literal ≡ some z
      → read_number fp literal taken ≡ some (int z)
  unfolding read_number
  read_integer z literal taken h e = rw (any_fraction-digits taken h, e) refl

  parse_positive :
      (n : ℕ) (s rest : Bytes)
      → all is_digit s ≡ true
      → is_empty s ≡ false
      → value_from 0 s ≡ n
      → n < 2 ^ 63
      → begins ends_number rest ≡ true
      → parse_number fp total (s ++ rest) ≡ parsed (int (pos n)) rest
  unfolding parse_number
  parse_positive n [] rest h full v small k = cc
  parse_positive n (c ∷ s) rest h full v small k =
      let digit = (and_parts (is_digit c) (all is_digit s) h).0 in
      let read = read_integer (pos n) (c ∷ s) (c ∷ s) h (stoll_positive c n s digit v small) in
      rw (not_sign c digit, scan_number-digits (c ∷ s) rest h k, read) refl

  parse_negative :
      (n : ℕ) (s rest : Bytes)
      → all is_digit s ≡ true
      → is_empty s ≡ false
      → value_from 0 s ≡ suc n
      → n < 2 ^ 63
      → begins ends_number rest ≡ true
      → parse_number fp total (b'-' ∷ s ++ rest) ≡ parsed (int (negsuc n)) rest
  unfolding parse_number
  parse_negative n s rest h full v small k =
      let read = read_integer (negsuc n) (b'-' ∷ s) s h (stoll_negative n s full v small) in
      rw (scan_number-digits s rest h k, read) refl

-- The range of a `std::int64_t`.
abbrev pub IsInt64 : ℤ → Type 0
IsInt64 (pos n) = n < 2 ^ 63
IsInt64 (negsuc n) = n < 2 ^ 63

pub nat_string_digits :
    (n : ℕ) → (all is_digit (nat_string n) ≡ true) × (value_from 0 (nat_string n) ≡ n)
unfolding nat_string value_from
nat_string_digits n =
    (all_digits-digits_onto (suc n) n [] refl, value_from-digits_onto (suc n) n [] (omega arith))

pub parse_number-int_string :
    (fp : DoubleText) (total : ℕ) (z : ℤ) (rest : Bytes)
    → IsInt64 z
    → begins ends_number rest ≡ true
    → parse_number fp total (int_string z ++ rest) ≡ parsed (int z) rest
unfolding int_string
parse_number-int_string fp total (pos n) rest h k =
    let (digits, v) = nat_string_digits n in
    parse_positive fp total n (nat_string n) rest digits (is_empty-nat_string n) v h k
parse_number-int_string fp total (negsuc n) rest h k =
    let (digits, v) = nat_string_digits (suc n) in
    parse_negative fp total n (nat_string (suc n)) rest digits (is_empty-nat_string (suc n)) v h k

-- What a printed integer begins with.
abbrev pub begins_number : ℕ → Bool
begins_number c = is_digit c || c == b'-'

digits_head :
    (s : Bytes)
    → all is_digit s ≡ true
    → is_empty s ≡ false
    → (c : ℕ) × (t : Bytes) × (s ≡ c ∷ t) × (begins_number c ≡ true)
digits_head [] h full = cc
digits_head (c ∷ s) h full = (c, s, refl, rw ((and_parts (is_digit c) (all is_digit s) h).0) refl)

pub int_string_head :
    (z : ℤ) → (c : ℕ) × (t : Bytes) × (int_string z ≡ c ∷ t) × (begins_number c ≡ true)
unfolding int_string
int_string_head (pos n) = digits_head (nat_string n) (nat_string_digits n).0 (is_empty-nat_string n)
int_string_head (negsuc n) = (b'-', nat_string (suc n), refl, refl)
