-- ===== src/Storage/RoundTrip/Times.antt =====
-- Times are read back from their texts (src/storage/serialization.cpp).
use contextsnap.Storage.RoundTrip.Numerals.{
  digits_onto-length, padded_short, padded_width, scan_int-field,
}
use contextsnap.Base.{
  Bytes, [], ap, arith, false, length, length-append, ltb, refl, some, suc, ℕ, ◌%◌, ◌++◌, ◌+◌, ◌/◌,
  ◌<◌, ◌^◌, ◌∷◌, ◌≡◌, ◌≤◌,
}
use contextsnap.Base.Int.{negsuc, pos, ℤ, ◌*ℤ◌, ◌+ℤ◌}
use contextsnap.Base.Decimal.{digits_onto, int_string, nat_string}
use contextsnap.Json.Number.{is_digit}
use contextsnap.Storage.Timestamps.{
  Calendar, field, format_timestamp, padded, parse_timestamp, scan_int, scan_time, time_text,
}
use contextsnap.Errors.{value}

-- The date and time of a second, of the years 0 to 9999.
pub record IsCivil (c : Calendar) (seconds : ℤ) : Type 0 where
  pub year : ℕ
  pub month : ℕ
  pub day : ℕ
  pub hour : ℕ
  pub minute : ℕ
  pub second : ℕ
  pub years : year < 10000
  pub months : month < 12
  pub days : day < 32
  pub hours : hour < 24
  pub minutes : minute < 60
  pub leap : second < 61
  pub broken : c.gmtime seconds ≡ record {
    year = pos year +ℤ negsuc 1899;
    month = pos month;
    day = pos day;
    hour = pos hour;
    minute = pos minute;
    second = pos second;
  }

year_text : (n : ℕ) → (pos n +ℤ negsuc 1899) +ℤ pos 1900 ≡ pos n
unfolding ◌+ℤ◌
year_text n = ground arith

month_text : (n : ℕ) → pos n +ℤ pos 1 ≡ pos (n + 1)
unfolding ◌+ℤ◌
month_text n = ground arith

month_back : (n : ℕ) → pos (n + 1) +ℤ negsuc 0 ≡ pos n
unfolding ◌+ℤ◌
month_back n = ground arith

whole_back : (n : ℕ) → pos (n / 1000) *ℤ pos 1000 +ℤ pos (n % 1000) ≡ pos n
unfolding ◌+ℤ◌ ◌*ℤ◌
whole_back n = ground arith

field_short : (w n : ℕ) → n < 10 ^ suc w → length (field (suc w) (pos n)) ≤ suc w
unfolding int_string nat_string
field_short w n h =
    padded_short (suc w) (digits_onto (suc n) n [])
      (omega (arith, digits_onto-length w (suc n) n [] h))

year_short : (n : ℕ) → n < 10000 → length (int_string (pos n)) ≤ 4
unfolding int_string nat_string
year_short n h = omega (arith, digits_onto-length 3 (suc n) n [] h)

scan_year :
    (n c : ℕ) (t : Bytes)
    → n < 10000
    → is_digit c ≡ false
    → scan_int 4 (int_string (pos n) ++ c ∷ t) ≡ some (pos n, c ∷ t)
scan_year n c t h off = unfold padded in scan_int-field 4 0 n c t (year_short n h) off

scan_two :
    (n c : ℕ) (t : Bytes)
    → n < 100
    → is_digit c ≡ false
    → scan_int 2 (field 2 (pos n) ++ c ∷ t) ≡ some (pos n, c ∷ t)
scan_two n c t h off = scan_int-field 2 2 n c t (field_short 1 n h) off

scan_three :
    (n c : ℕ) (t : Bytes)
    → n < 1000
    → is_digit c ≡ false
    → scan_int 3 (field 3 (pos n) ++ c ∷ t) ≡ some (pos n, c ∷ t)
scan_three n c t h off = scan_int-field 3 3 n c t (field_short 2 n h) off

at_least : (k n : ℕ) → k ≤ n → ltb n k ≡ false
at_least k n h = ground arith

module _ (c : Calendar) where
  abbrev fraction : ℕ → Bytes
  fraction m = b'.' ∷ (field 3 (pos m) ++ b'Z' ∷ [])

  abbrev clock : ℕ → ℕ → ℕ → ℕ → ℕ → Bytes
  clock day hour minute second m =
      field 2 (pos day)
      ++ b'T'
        ∷ (field 2 (pos hour)
            ++ b':' ∷ (field 2 (pos minute) ++ b':' ∷ (field 2 (pos second) ++ fraction m)))

  civil_text :
      (seconds : ℤ) (h : IsCivil c seconds) (m : ℕ)
      → time_text c (c.gmtime seconds) (pos m)
        ≡ int_string (pos h.year)
          ++ b'-' ∷ (field 2 (pos (h.month + 1)) ++ b'-' ∷ clock h.day h.hour h.minute h.second m)
  civil_text seconds h m = rw (h.broken, year_text h.year, month_text h.month) refl

  scan_time-civil :
      (seconds : ℤ) (h : IsCivil c seconds) (m : ℕ)
      → scan_time (time_text c (c.gmtime seconds) (pos m)) ≡ some (c.gmtime seconds, fraction m)
  unfolding scan_time
  scan_time-civil seconds h m =
      rw
        (
          civil_text seconds h m,
          scan_year h.year b'-'
              (field 2 (pos (h.month + 1)) ++ b'-' ∷ clock h.day h.hour h.minute h.second m) h.years
              refl,
          scan_two (h.month + 1) b'-' (clock h.day h.hour h.minute h.second m)
              (omega (arith, h.months)) refl,
          scan_two h.day b'T'
              (field 2 (pos h.hour)
                ++ b':' ∷ (field 2 (pos h.minute) ++ b':' ∷ (field 2 (pos h.second) ++ fraction m)))
              (omega (arith, h.days)) refl,
          scan_two h.hour b':'
              (field 2 (pos h.minute) ++ b':' ∷ (field 2 (pos h.second) ++ fraction m))
              (omega (arith, h.hours)) refl,
          scan_two h.minute b':' (field 2 (pos h.second) ++ fraction m) (omega (arith, h.minutes))
              refl,
          scan_two h.second b'.' (field 3 (pos m) ++ b'Z' ∷ []) (omega (arith, h.leap)) refl,
          month_back h.month,
          h.broken,
        )
        refl

  -- A field of width two and a mark behind it.
  two_length : (n mark : ℕ) (t : Bytes) → 3 + length t ≤ length (field 2 (pos n) ++ mark ∷ t)
  two_length n mark t =
      omega (arith, length-append (field 2 (pos n)) (mark ∷ t), padded_width 2 (int_string (pos n)))

  text_long :
      (seconds : ℤ) (h : IsCivil c seconds) (m : ℕ)
      → ltb (length (time_text c (c.gmtime seconds) (pos m))) 19 ≡ false
  text_long seconds h m = rw (civil_text seconds h m) (
      let end = field 3 (pos m) ++ b'Z' ∷ [] in
      let seconds_on = field 2 (pos h.second) ++ b'.' ∷ end in
      let minutes_on = field 2 (pos h.minute) ++ b':' ∷ seconds_on in
      let hours_on = field 2 (pos h.hour) ++ b':' ∷ minutes_on in
      let days_on = field 2 (pos h.day) ++ b'T' ∷ hours_on in
      let months_on = field 2 (pos (h.month + 1)) ++ b'-' ∷ days_on in
      let e1 = length-append (field 3 (pos m)) (b'Z' ∷ []) in
      let w = padded_width 3 (int_string (pos m)) in
      let e2 = two_length h.second b'.' end in
      let e3 = two_length h.minute b':' seconds_on in
      let e4 = two_length h.hour b':' minutes_on in
      let e5 = two_length h.day b'T' hours_on in
      let e6 = two_length (h.month + 1) b'-' days_on in
      let e7 = length-append (int_string (pos h.year)) (b'-' ∷ months_on) in
      at_least 19 (length (int_string (pos h.year) ++ b'-' ∷ months_on))
        (omega (arith, e1, w, e2, e3, e4, e5, e6, e7)))

  -- A time not before 1970, whose second the C library breaks down into a date of a year before 10000
  -- and puts together again, is read back to the millisecond from its text.
  pub parse_timestamp-format_timestamp :
      (n : ℕ)
      → IsCivil c (pos (n / 1000))
      → c.timegm (c.gmtime (pos (n / 1000))) ≡ pos (n / 1000)
      → parse_timestamp c (format_timestamp c (pos n)) ≡ value (pos n)
  unfolding parse_timestamp format_timestamp
  parse_timestamp-format_timestamp n h back =
      rw
        (
          text_long (pos (n / 1000)) h (n % 1000),
          scan_time-civil (pos (n / 1000)) h (n % 1000),
          scan_three (n % 1000) b'Z' [] (omega arith) refl,
          back,
        )
        (ap (λ z. value z) (whole_back n))
