-- ===== src/Json/Number.antt =====
-- src/core/json.cpp: `Parser::parse_number`, with what it uses of `std::stoll`.
use contextsnap.Base.{
  Bool, Bytes, Option, [], any, codes, false, if◌then◌else◌, is_empty, leb, ltb, none, some, suc,
  zero, ℕ, ◌&&◌, ◌*◌, ◌++◌, ◌+◌, ◌-◌, ◌==◌, ◌^◌, ◌||◌, ◌∷◌,
}
use contextsnap.Base.Int.{negsuc, pos, ℤ}
use contextsnap.Json.{DoubleText, Value, double, int}
use contextsnap.Json.Outcome.{Outcome, fail, parsed}

abbrev pub is_digit : ℕ → Bool
is_digit c = leb b'0' c && leb c b'9'

abbrev pub is_sign : ℕ → Bool
is_sign c = c == b'-' || c == b'+'

-- The characters that make the literal a double.
abbrev pub is_fraction : ℕ → Bool
is_fraction c = c == b'.' || c == b'e' || c == b'E' || c == b'+' || c == b'-'

-- The scanning loop: the characters that it takes, and the rest.
unfoldable pub scan_number : Bytes → Bytes × Bytes
scan_number [] = ([], [])
scan_number (c ∷ s) =
    let (taken, rest) = scan_number s in
    if is_digit c || is_fraction c then (c ∷ taken, rest) else ([], c ∷ s)

-- The number that digits stand for, behind the digits of `acc`.
unfoldable pub value_from : ℕ → Bytes → ℕ
value_from acc [] = acc
value_from acc (c ∷ s) = value_from (acc * 10 + (c - b'0')) s

-- A sign in front is taken off.
unfoldable pub unsigned_part : Bytes → Bytes
unsigned_part [] = []
unsigned_part (c ∷ s) = if is_sign c then s else c ∷ s

abbrev negated : ℕ → ℤ
negated zero = pos 0
negated (suc n) = negsuc n

abbrev is_minus : Bytes → Bool
is_minus [] = false
is_minus (c ∷ s) = c == b'-'

-- `std::stoll` of an optional sign and digits, all of which it takes: `none` is an exception, of no
-- digits or of a number out of range.
unfoldable pub stoll : Bytes → Option ℤ
unfolding value_from unsigned_part
stoll literal =
    let digits = unsigned_part literal in
    let n = value_from 0 digits in
    if is_empty digits
    then none
    else if is_minus literal
    then if leb n (2 ^ 63) then some (negated n) else none
    else if ltb n (2 ^ 63)
    then some (pos n)
    else none

abbrev pub number_of : ℕ → Bytes → Option Value → Outcome Value
number_of total rest (some v) = parsed v rest
number_of total rest none = fail total (codes "number out of range") rest

-- Behind an optional sign `taken` are the scanned characters: an integer has no mark of a double
-- among them.
unfoldable pub read_number : DoubleText → Bytes → Bytes → Option Value
unfolding stoll
read_number fp literal taken =
    if any is_fraction taken
    then elim (fp.stod literal) [ none ↦ none | some d ↦ some (double d) ]
    else elim (stoll literal) [ none ↦ none | some z ↦ some (int z) ]

abbrev pub number_at : DoubleText → ℕ → Bytes → Bytes → Bytes × Bytes → Outcome Value
number_at fp total s sign (taken, rest) =
    if is_empty (sign ++ taken)
    then fail total (codes "invalid number") s
    else number_of total rest (read_number fp (sign ++ taken) taken)

unfoldable pub parse_number : DoubleText → ℕ → Bytes → Outcome Value
unfolding scan_number read_number fail
parse_number fp total [] = number_at fp total [] [] (scan_number [])
parse_number fp total (c ∷ s) =
    if is_sign c
    then number_at fp total (c ∷ s) (c ∷ []) (scan_number s)
    else number_at fp total (c ∷ s) [] (scan_number (c ∷ s))
