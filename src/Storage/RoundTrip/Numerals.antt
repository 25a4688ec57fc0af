-- ===== src/Storage/RoundTrip/Numerals.antt =====
-- Numbers padded with zeros are read back from a time (src/storage/serialization.cpp).
use contextsnap.Base.{
  Bool-cases, Bytes, [], all, and_parts, ap, arith, false, inl, inr, is_empty, length, ltb, refl,
  some, suc, true, zero, ℕ, ◌%◌, ◌++◌, ◌+◌, ◌/◌, ◌<◌, ◌^◌, ◌∙◌, ◌∷◌, ◌≡◌, ◌≤◌,
}
use contextsnap.Base.Int.{pos}
use contextsnap.Base.Decimal.{digits_onto, int_string, nat_string}
use contextsnap.Json.Number.{is_digit, value_from, is_sign}
use contextsnap.Json.Digits.{is_empty-nat_string, nat_string_digits}
use contextsnap.Storage.Timestamps.{field, padded, scan_digits, scan_int, is_space, skip_space}

-- Zeros in front change neither the digits nor their value.
padded_digits : (w : ℕ) (s : Bytes) → all is_digit s ≡ true → all is_digit (padded w s) ≡ true
unfolding padded
padded_digits zero s h = h
padded_digits (suc w) s h = elim (Bool-cases (ltb w (length s))) [
  | inl long ↦ rw long h
  | inr short ↦ rw short (padded_digits w s h)
]

padded_value : (w : ℕ) (s : Bytes) → value_from 0 (padded w s) ≡ value_from 0 s
unfolding padded value_from
padded_value zero s = refl
padded_value (suc w) s = elim (Bool-cases (ltb w (length s))) [
  | inl long ↦ rw long refl
  | inr short ↦ rw short (padded_value w s)
]

padded_full : (w : ℕ) (s : Bytes) → is_empty s ≡ false → is_empty (padded w s) ≡ false
unfolding padded
padded_full zero s h = h
padded_full (suc w) s h = elim (Bool-cases (ltb w (length s))) [
  | inl long ↦ rw long h
  | inr short ↦ rw short refl
]

pub padded_width : (w : ℕ) (s : Bytes) → w ≤ length (padded w s)
unfolding padded
padded_width zero s = omega arith
padded_width (suc w) s = elim (Bool-cases (ltb w (length s))) [
  | inl long ↦ rw long (ground arith)
  | inr short ↦ rw short (omega (arith, padded_width w s))
]

pub padded_short : (w : ℕ) (s : Bytes) → length s ≤ w → length (padded w s) ≤ w
unfolding padded
padded_short zero s h = h
padded_short (suc w) s h = elim (Bool-cases (ltb w (length s))) [
  | inl long ↦ rw long h
  | inr short ↦
      rw short (let le : length s ≤ w = ground arith in omega (arith, padded_short w s le))
]

-- A number below a power of ten has that many digits at most.
pub digits_onto-length :
    (w f n : ℕ) (acc : Bytes) → n < 10 ^ suc w → length (digits_onto f n acc) ≤ suc w + length acc
unfolding digits_onto
digits_onto-length w zero n acc h = omega arith
digits_onto-length zero (suc f) n acc h =
    let small : ltb n 10 ≡ true = ground arith in rw small (omega arith)
digits_onto-length (suc w) (suc f) n acc h = elim (Bool-cases (ltb n 10)) [
  | inl small ↦ rw small (omega arith)
  | inr large ↦ rw large (
      let less : n / 10 < 10 ^ suc w = ground arith in
      omega (arith, digits_onto-length w f (n / 10) ((b'0' + n % 10) ∷ acc) less))
]

scan_digits-all :
    (w : ℕ) (s : Bytes) (c : ℕ) (t : Bytes)
    → all is_digit s ≡ true
    → length s ≤ w
    → is_digit c ≡ false
    → scan_digits w (s ++ c ∷ t) ≡ (s, c ∷ t)
unfolding scan_digits
scan_digits-all zero [] c t h le off = refl
scan_digits-all (suc w) [] c t h le off = rw off refl
scan_digits-all zero (b ∷ s) c t h le off = absurd (omega arith)
scan_digits-all (suc w) (b ∷ s) c t h le off =
    let (digit, more) = and_parts (is_digit b) (all is_digit s) h in
    rw (digit, scan_digits-all w s c t more (omega arith) off) refl

scan_int-digits :
    (w : ℕ) (s : Bytes) (c : ℕ) (t : Bytes)
    → all is_digit s ≡ true
    → is_empty s ≡ false
    → length s ≤ w
    → is_digit c ≡ false
    → scan_int w (s ++ c ∷ t) ≡ some (pos (value_from 0 s), c ∷ t)
unfolding scan_int skip_space
scan_int-digits w [] c t h full le off = cc
scan_int-digits w (b ∷ s) c t h full le off =
    let digit = (and_parts (is_digit b) (all is_digit s) h).0 in
    let solid : is_space b ≡ false = ground arith in
    let unsigned : is_sign b ≡ false = ground arith in
    rw (solid, unsigned, scan_digits-all w (b ∷ s) c t h le off) refl

pub scan_int-field :
    (w k n c : ℕ) (t : Bytes)
    → length (field k (pos n)) ≤ w
    → is_digit c ≡ false
    → scan_int w (field k (pos n) ++ c ∷ t) ≡ some (pos n, c ∷ t)
unfolding int_string
scan_int-field w k n c t le off =
    let (digits, v) = nat_string_digits n in
    let same : value_from 0 (field k (pos n)) ≡ n = padded_value k (nat_string n) ∙ v in
    scan_int-digits w (field k (pos n)) c t (padded_digits k (nat_string n) digits)
      (padded_full k (nat_string n) (is_empty-nat_string n)) le off
    ∙ ap (λ m. some (pos m, c ∷ t)) same
