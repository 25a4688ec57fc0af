-- ===== src/Storage/Timestamps.antt =====
-- src/storage/serialization.cpp: times as text. A time is a count of milliseconds. `gmtime_r` and
-- `timegm` are the parameter Calendar; `sscanf` and `put_time` are modelled for the formats used.
use contextsnap.Base.{
  Bool, Bytes, Option, [], codes, false, if◌then◌else◌, is_empty, leb, length, ltb, none, some, suc,
  zero, ℕ, ◌%◌, ◌&&◌, ◌++◌, ◌+◌, ◌-◌, ◌/◌, ◌==◌, ◌||◌, ◌∷◌,
}
use contextsnap.Base.Int.{negsuc, pos, sub_ℕ, ℤ, ◌*ℤ◌, ◌+ℤ◌}
use contextsnap.Base.Decimal.{int_string}
use contextsnap.Errors.{Result, error, invalid, value}
use contextsnap.Json.Number.{is_digit, is_sign, value_from}

-- `std::tm`, as far as it is used.
pub record BrokenTime : Type 0 where
  pub year : ℤ
  pub month : ℤ
  pub day : ℤ
  pub hour : ℤ
  pub minute : ℤ
  pub second : ℤ

pub record Calendar : Type 0 where
  pub gmtime : ℤ → BrokenTime
  pub timegm : BrokenTime → ℤ

-- Zeros in front up to a width, as `setfill('0')` and `setw` write them.
unfoldable pub padded : ℕ → Bytes → Bytes
padded zero s = s
padded (suc w) s = if ltb w (length s) then s else b'0' ∷ padded w s

abbrev pub field : ℕ → ℤ → Bytes
field w z = padded w (int_string z)

-- Whole seconds and the milliseconds beyond them, both cut off towards zero.
unfoldable pub seconds_of : ℤ → ℤ
seconds_of (pos n) = pos (n / 1000)
seconds_of (negsuc n) = sub_ℕ 0 ((n + 1) / 1000)

unfoldable pub millis_of : ℤ → ℤ
millis_of (pos n) = pos (n % 1000)
millis_of (negsuc n) = sub_ℕ 0 ((n + 1) % 1000)

module _ (c : Calendar) where
  abbrev pub time_text : BrokenTime → ℤ → Bytes
  time_text tm millis =
      int_string (tm.year +ℤ pos 1900)
      ++ b'-'
        ∷ (field 2 (tm.month +ℤ pos 1)
            ++ b'-'
              ∷ (field 2 tm.day
                  ++ b'T'
                    ∷ (field 2 tm.hour
                        ++ b':'
                          ∷ (field 2 tm.minute
                              ++ b':'
                                ∷ (field 2 tm.second ++ b'.' ∷ (field 3 millis ++ b'Z' ∷ []))))))

  unfoldable pub format_timestamp : ℤ → Bytes
  unfolding seconds_of millis_of padded
  format_timestamp t = time_text (c.gmtime (seconds_of t)) (millis_of t)

abbrev pub is_space : ℕ → Bool
is_space c = c == 32 || (leb 9 c && leb c 13)

unfoldable pub skip_space : Bytes → Bytes
skip_space [] = []
skip_space (c ∷ s) = let rest = skip_space s in if is_space c then rest else c ∷ s

-- At most `w` digits, and the rest.
unfoldable pub scan_digits : ℕ → Bytes → Bytes × Bytes
scan_digits zero s = ([], s)
scan_digits (suc w) [] = ([], [])
scan_digits (suc w) (c ∷ s) =
    let (taken, rest) = scan_digits w s in if is_digit c then (c ∷ taken, rest) else ([], c ∷ s)

abbrev signed_value : Bool → ℕ → ℤ
signed_value minus n = if minus then sub_ℕ 0 n else pos n

abbrev scanned : Bool → Bytes × Bytes → Option (ℤ × Bytes)
scanned minus (digits, rest) =
    if is_empty digits then none else some (signed_value minus (value_from 0 digits), rest)

abbrev scan_signed : ℕ → Bytes → Option (ℤ × Bytes)
scan_signed w [] = none
scan_signed w (c ∷ s) =
    if is_sign c
    then scanned (c == b'-') (scan_digits (w - 1) s)
    else scanned false (scan_digits w (c ∷ s))

-- The conversion `%<w>d` of `sscanf`.
unfoldable pub scan_int : ℕ → Bytes → Option (ℤ × Bytes)
unfolding skip_space scan_digits value_from
scan_int w s = scan_signed w (skip_space s)

-- A character of the format that must stand in the text.
abbrev after : ℕ → Bytes → Option Bytes
after c [] = none
after c (b ∷ s) = if b == c then some s else none

abbrev then_int : ℕ → ℕ → Bytes → Option (ℤ × Bytes)
then_int c w s = elim (after c s) [ none ↦ none | some t ↦ scan_int w t ]

abbrev with_int {ℓ} : {A : Type ℓ} → Option (ℤ × Bytes) → (ℤ → Bytes → Option A) → Option A
with_int none f = none
with_int (some (z, s)) f = f z s

-- The six numbers without which the text is malformed, and what is left.
unfoldable pub scan_time : Bytes → Option (BrokenTime × Bytes)
unfolding scan_int
scan_time text = with_int (scan_int 4 text) λ year s1. with_int (then_int b'-' 2 s1) λ month s2.
    with_int (then_int b'-' 2 s2) λ day s3. with_int (then_int b'T' 2 s3) λ hour s4.
      with_int (then_int b':' 2 s4) λ minute s5. with_int (then_int b':' 2 s5) λ second s6. some (
        record {
          year = year +ℤ negsuc 1899;
          month = month +ℤ negsuc 0;
          day = day;
          hour = hour;
          minute = minute;
          second = second;
        },
        s6,
      )

abbrev millis_in : Option (ℤ × Bytes) → ℤ
millis_in none = pos 0
millis_in (some (z, rest)) = z

unfoldable pub parse_timestamp : Calendar → Bytes → Result ℤ
unfolding scan_time scan_int
parse_timestamp c text =
    if ltb (length text) 19
    then error (invalid (codes "timestamp too short") (codes "storage.time"))
    else elim (scan_time text) [
      | none ↦ error (invalid (codes "malformed RFC 3339 timestamp") (codes "storage.time"))
      | some (tm, rest) ↦ value (c.timegm tm *ℤ pos 1000 +ℤ millis_in (then_int b'.' 3 rest))
    ]
