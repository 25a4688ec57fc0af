-- ===== src/Base/Decimal.antt =====
-- `std::to_string` of an integer: decimal digits, with a minus sign.
use contextsnap.Base.{ℕ, zero, suc, ◌+◌, ◌/◌, ◌%◌, Bytes, [], ◌∷◌, ltb, if◌then◌else◌}
use contextsnap.Base.Int.{ℤ, pos, negsuc}

-- The digits of `n` before `acc`; the fuel is a bound on the number of digits.
unfoldable pub digits_onto : ℕ → ℕ → Bytes → Bytes
digits_onto zero n acc = acc
digits_onto (suc f) n acc =
    let more = digits_onto f (n / 10) ((b'0' + n % 10) ∷ acc) in
    if ltb n 10 then (b'0' + n) ∷ acc else more

unfoldable pub nat_string : ℕ → Bytes
unfolding digits_onto
nat_string n = digits_onto (suc n) n []

unfoldable pub int_string : ℤ → Bytes
unfolding nat_string
int_string (pos n) = nat_string n
int_string (negsuc n) = b'-' ∷ nat_string (suc n)
