-- ===== src/Json/RoundTrip/Doubles.antt =====
-- Printed doubles (src/core/json.cpp, `format_double` and `parse_number`). A double whose text has
-- no mark of a double is read back as an integer.
use contextsnap.Base.{
  Bool, Bool-cases, Bytes, all, and_parts, any, arith, false, inl, inr, is_empty, not, some, suc,
  true, zero, ℕ, ◌&&◌, ◌+◌, ◌<◌, ◌||◌, ◌∷◌, ◌≡◌, ◌≤◌, ◌⊎◌, [], refl, ◌++◌, ap, append-nil, sym, ◌∙◌,
}
use contextsnap.Base.Int.{ℤ}
use contextsnap.Base.Double.{Double}
use contextsnap.Base.Decimal.{int_string}
use contextsnap.Json.{DoubleText, Value, double, null, as_double, int}
use contextsnap.Json.Printer.{format_double, shortest}
use contextsnap.Json.Number.{is_digit, is_fraction, is_sign, parse_number, scan_number}
use contextsnap.Json.Outcome.{Outcome, parsed}
use contextsnap.Json.Digits.{
  IsInt64, begins_number, ends_number, int_string_head, parse_number-int_string, scan_number-digits,
}
use contextsnap.Base.Cuts.{begins}

abbrev is_number_char : ℕ → Bool
is_number_char c = is_digit c || is_fraction c

-- A text that the scanner takes whole, and that is a double's: `stod` reads it as `d`.
pub record IsFraction (fp : DoubleText) (d : Double) (text : Bytes) : Type 0 where
  pub first : ℕ
  pub others : Bytes
  pub splits : text ≡ first ∷ others
  pub begins_well : begins_number first ≡ true
  pub scanned : all is_number_char others ≡ true
  pub marked : any is_fraction others ≡ true
  pub read : fp.stod text ≡ some d

-- An integer's text, of the double that the integer converts to.
pub record IsWhole (fp : DoubleText) (d : Double) (text : Bytes) : Type 0 where
  pub whole : ℤ
  pub fits : IsInt64 whole
  pub printed : text ≡ int_string whole
  pub converts : fp.of_int whole ≡ d

-- The C library's conversions at one double: no special value, and each of its texts that reads
-- back is a double's or an integer's.
pub record IsReadable (fp : DoubleText) (d : Double) : Type 0 where
  pub ordinary : fp.is_special d ≡ false
  pub printed_full : is_empty (fp.print 17 d) ≡ false
  pub full : IsFraction fp d (fp.print 17 d) ⊎ IsWhole fp d (fp.print 17 d)
  pub shorter :
      (p : ℕ)
      → p < 17
      → fp.eq (fp.strtod (fp.print p d)) d ≡ true
      → IsFraction fp d (fp.print p d) ⊎ IsWhole fp d (fp.print p d)

shortest_reads :
    (fp : DoubleText) (d : Double)
    → IsReadable fp d
    → (rounds p : ℕ) → rounds + p ≤ 17
    → IsFraction fp d (shortest fp rounds p d (fp.print 17 d))
      ⊎ IsWhole fp d (shortest fp rounds p d (fp.print 17 d))
unfolding shortest
shortest_reads fp d h zero p le = h.full
shortest_reads fp d h (suc rounds) p le =
    elim (Bool-cases (not (is_empty (fp.print p d)) && fp.eq (fp.strtod (fp.print p d)) d)) [
      | inl taken ↦ rw taken (
          h.shorter p (omega arith)
            (and_parts (not (is_empty (fp.print p d))) (fp.eq (fp.strtod (fp.print p d)) d)
              taken).1)
      | inr skipped ↦ rw skipped (shortest_reads fp d h rounds (p + 1) (omega arith))
    ]

format_double_reads :
    (fp : DoubleText) (d : Double)
    → IsReadable fp d
    → IsFraction fp d (format_double fp d) ⊎ IsWhole fp d (format_double fp d)
unfolding format_double
format_double_reads fp d h =
    rw (h.ordinary, h.printed_full) (shortest_reads fp d h 16 1 (omega arith))

-- The value that the parser takes from a number's text.
abbrev value_in : Outcome Value → Value
value_in (parsed v rest) = v
value_in _ = null

unfoldable pub number_value : DoubleText → Double → Value
unfolding parse_number format_double
number_value fp d = value_in (parse_number fp 0 (format_double fp d))

scan_number-chars :
    (s rest : Bytes)
    → all is_number_char s ≡ true
    → begins ends_number rest ≡ true
    → scan_number (s ++ rest) ≡ (s, rest)
unfolding scan_number
scan_number-chars [] rest h k = scan_number-digits [] rest refl k
scan_number-chars (c ∷ s) rest h k =
    let (one, more) = and_parts (is_number_char c) (all is_number_char s) h in
    rw (one, scan_number-chars s rest more k) refl

any-cons : (c : ℕ) (s : Bytes) → any is_fraction s ≡ true → any is_fraction (c ∷ s) ≡ true
any-cons c s h = elim (Bool-cases (is_fraction c)) [ inl on ↦ rw on refl | inr off ↦ rw off h ]

parse_fraction :
    (fp : DoubleText) (total : ℕ) (d : Double) (c : ℕ) (s rest : Bytes)
    → begins_number c ≡ true
    → all is_number_char s ≡ true
    → any is_fraction s ≡ true
    → fp.stod (c ∷ s) ≡ some d
    → begins ends_number rest ≡ true
    → parse_number fp total (c ∷ s ++ rest) ≡ parsed (double d) rest
unfolding parse_number
parse_fraction fp total d c s rest hc hs marked read k = elim (Bool-cases (is_sign c)) [
  | inl sign ↦ rw (sign, scan_number-chars s rest hs k, marked, read) refl
  | inr digit ↦
      let one : is_number_char c ≡ true = ground arith in
      rw (digit, scan_number-chars (c ∷ s) rest (rw one hs) k, any-cons c s marked, read) refl
]

-- The text of a double is read as one value wherever it stands, and that value stands for it.
record Printed (fp : DoubleText) (d : Double) (text : Bytes) : Type 0 where
  v : Value
  starts : (c : ℕ) × (t : Bytes) × (text ≡ c ∷ t) × (begins_number c ≡ true)
  read :
      (total : ℕ) (rest : Bytes)
      → begins ends_number rest ≡ true
      → parse_number fp total (text ++ rest) ≡ parsed v rest
  stands : (fallback : Double) → as_double fp v fallback ≡ d

fraction-Printed :
    (fp : DoubleText) (d : Double) (text : Bytes) → IsFraction fp d text → Printed fp d text
unfolding as_double
fraction-Printed fp d text h = record {
  v = double d;
  starts = (h.first, h.others, h.splits, h.begins_well);
  read = λ total rest k. rw h.splits (
      parse_fraction fp total d h.first h.others rest h.begins_well h.scanned h.marked
        (rw h.splits at h.read) k);
  stands = λ fallback. refl;
}

whole-Printed :
    (fp : DoubleText) (d : Double) (text : Bytes) → IsWhole fp d text → Printed fp d text
unfolding as_double
whole-Printed fp d text h = record {
  v = int h.whole;
  starts = rw h.printed (int_string_head h.whole);
  read = λ total rest k. rw h.printed (parse_number-int_string fp total h.whole rest h.fits k);
  stands = λ fallback. h.converts;
}

printed_value : (fp : DoubleText) (d : Double) → IsReadable fp d → Printed fp d (format_double fp d)
printed_value fp d h = elim (format_double_reads fp d h) [
  | inl f ↦ fraction-Printed fp d (format_double fp d) f
  | inr w ↦ whole-Printed fp d (format_double fp d) w
]

printed_is :
    (fp : DoubleText) (d : Double) (h : IsReadable fp d)
    → number_value fp d ≡ (printed_value fp d h).v
unfolding number_value
printed_is fp d h =
    let p = printed_value fp d h in let read = rw append-nil at (p.read 0 [] refl) in rw read refl

pub parse_number-format_double :
    (fp : DoubleText) (total : ℕ) (d : Double) (rest : Bytes)
    → IsReadable fp d
    → begins ends_number rest ≡ true
    → parse_number fp total (format_double fp d ++ rest) ≡ parsed (number_value fp d) rest
parse_number-format_double fp total d rest h k =
    (printed_value fp d h).read total rest k ∙ ap (λ v. parsed v rest) (sym (printed_is fp d h))

pub format_double_head :
    (fp : DoubleText) (d : Double)
    → IsReadable fp d
    → (c : ℕ) × (t : Bytes) × (format_double fp d ≡ c ∷ t) × (begins_number c ≡ true)
format_double_head fp d h = (printed_value fp d h).starts

pub as_double-number_value :
    (fp : DoubleText) (d fallback : Double)
    → IsReadable fp d
    → as_double fp (number_value fp d) fallback ≡ d
as_double-number_value fp d fallback h =
    rw (printed_is fp d h) ((printed_value fp d h).stands fallback)
