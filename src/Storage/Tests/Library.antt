-- ===== src/Storage/Tests/Library.antt =====
-- The C library and the calendar of the tests (src/storage/serialization.cpp).
use contextsnap.Base.{Bytes, arith, codes, false, if◌then◌else◌, inl, inr, refl, some, true, ◌==◌}
use contextsnap.Base.Int.{pos, ◌+ℤ◌}
use contextsnap.Base.Decimal.{int_string}
use contextsnap.Base.Double.{Double, bits}
use contextsnap.Json.{DoubleText}
use contextsnap.Json.RoundTrip.Doubles.{IsFraction, IsReadable, IsWhole}
use contextsnap.Storage.Timestamps.{Calendar}
use contextsnap.Storage.RoundTrip.Times.{IsCivil}

-- A C library with two doubles: bits 2 is 1, all others are 1.5.
abbrev pub text_of : Double → Bytes
text_of (bits n) = if n == 2 then codes "1" else codes "1.5"

abbrev pub two_doubles : DoubleText
two_doubles = record {
  is_special = λ d. false;
  print = λ p d. text_of d;
  strtod = λ s. bits 3;
  stod = λ s. some (bits 3);
  eq = λ a b. true;
  to_int64 = λ d. pos 1;
  of_int = λ z. bits 2;
}

pub one-IsWhole : IsWhole two_doubles (bits 2) (codes "1")
unfolding int_string
one-IsWhole = record { whole = pos 1; fits = omega arith; printed = refl; converts = refl }

pub one-IsReadable : IsReadable two_doubles (bits 2)
one-IsReadable = record {
  ordinary = refl;
  printed_full = refl;
  full = inr one-IsWhole;
  shorter = λ p h e. inr one-IsWhole;
}

pub half-IsFraction : IsFraction two_doubles (bits 3) (codes "1.5")
half-IsFraction = record {
  first = b'1';
  others = codes ".5";
  splits = refl;
  begins_well = refl;
  scanned = refl;
  marked = refl;
  read = refl;
}

pub half-IsReadable : IsReadable two_doubles (bits 3)
half-IsReadable = record {
  ordinary = refl;
  printed_full = refl;
  full = inl half-IsFraction;
  shorter = λ p h e. inl half-IsFraction;
}

-- A calendar of one second: 2023-11-14 22:13:20 UTC.
abbrev pub one_second : Calendar
one_second = record {
  gmtime = λ z. record {
    year = pos 123;
    month = pos 10;
    day = pos 14;
    hour = pos 22;
    minute = pos 13;
    second = pos 20;
  };
  timegm = λ tm. pos 1700000000;
}

pub one_second-IsCivil : IsCivil one_second (pos 1700000000)
one_second-IsCivil = record {
  year = 2023;
  month = 10;
  day = 14;
  hour = 22;
  minute = 13;
  second = 20;
  years = omega arith;
  months = omega arith;
  days = omega arith;
  hours = omega arith;
  minutes = omega arith;
  leap = omega arith;
  broken = unfold ◌+ℤ◌ in refl;
}
