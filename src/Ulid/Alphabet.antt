-- ===== src/Ulid/Alphabet.antt =====
-- The alphabet: what each of its characters decodes to, and its order.
use contextsnap.Base.{
  ℕ, zero, suc, ◌+◌, ◌<◌, ◌≡◌, refl, Bool, true, false, ◌&&◌, Option, none, some, [], ◌∷◌, Bytes,
  length, get_or, ltb, ◌==◌, if◌then◌else◌, arith,
}
use contextsnap.Ulid.{alphabet, search_alphabet, decode_char}

-- The test holds for each of the digits below the bound.
each_digit : (ℕ → Bool) → ℕ → Bool
each_digit test zero = true
each_digit test (suc bound) = each_digit test bound && test bound

each_digit-elim :
    (test : ℕ → Bool) (bound v : ℕ) → each_digit test bound ≡ true → v < bound → test v ≡ true
unfolding each_digit
each_digit-elim test zero v passed below = absurd (omega arith)
each_digit-elim test (suc bound) v passed below = ground (arith, each_digit-elim test bound v)

abbrev is_some : ℕ → Option ℕ → Bool
is_some v none = false
is_some v (some w) = v == w

some_of : (v : ℕ) (o : Option ℕ) → is_some v o ≡ true → o ≡ some v
some_of v none h = cc
some_of v (some w) h = ground arith

decode_table : each_digit (λ v. is_some v (decode_char (get_or alphabet v 0))) 32 ≡ true
unfolding each_digit decode_char
decode_table = refl

-- Each character of the alphabet decodes to its position.
pub decode_char-alphabet : (v : ℕ) → v < 32 → decode_char (get_or alphabet v 0) ≡ some v
decode_char-alphabet v h =
    some_of v (decode_char (get_or alphabet v 0))
      (each_digit-elim (λ v. is_some v (decode_char (get_or alphabet v 0))) 32 v decode_table h)

abbrev same_order : ℕ → ℕ → Bool
same_order v w =
    if ltb v w
    then ltb (get_or alphabet v 0) (get_or alphabet w 0)
    else if v == w
    then true
    else ltb (get_or alphabet w 0) (get_or alphabet v 0)

order_table : each_digit (λ v. each_digit (same_order v) 32) 32 ≡ true
unfolding each_digit
order_table = refl

pub alphabet_order : (v w : ℕ) → v < 32 → w < 32 → same_order v w ≡ true
alphabet_order v w h k =
    each_digit-elim (same_order v) 32 w
      (each_digit-elim (λ u. each_digit (same_order u) 32) 32 v order_table h) k

-- The alphabet's order is the numbers' order.
pub alphabet_mono :
    (v w : ℕ) → v < w → w < 32 → ltb (get_or alphabet v 0) (get_or alphabet w 0) ≡ true
alphabet_mono v w h k = ground (arith, alphabet_order v w)

search_alphabet_bound :
    (cs : Bytes) (i upper v : ℕ) → search_alphabet cs i upper ≡ some v → v < i + length cs
unfolding search_alphabet
search_alphabet_bound [] i upper v h = cc
search_alphabet_bound (c ∷ cs) i upper v h =
    ground (arith, search_alphabet_bound cs (i + 1) upper v)

-- A decoded character is a five-bit number.
pub decode_char-lt : (c v : ℕ) → decode_char c ≡ some v → v < 32
unfolding decode_char
decode_char-lt c v h = grind (arith, search_alphabet_bound)
