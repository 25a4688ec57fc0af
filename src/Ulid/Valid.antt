-- ===== src/Ulid/Valid.antt =====
-- Generated identifiers are valid, a valid identifier carries a 48-bit time, and short ids.
use contextsnap.Base.{
  ℕ, zero, suc, ◌+◌, ◌-◌, ◌*◌, ◌/◌, ◌%◌, ◌^◌, ◌<◌, ◌≡◌, refl, ◌∙◌, Bool, true, false, Option, none,
  some, [], ◌∷◌, ◌++◌, Bytes, length, get_or, take, all, min, take-append-drop, length-drop,
  append-nil, take-length, le→leb, leb, ◌==◌, if◌then◌else◌, arith, Option-cases, inl, inr,
}
use contextsnap.Base.Int.{ℤ, pos_part}
use contextsnap.Ulid.{
  alphabet, decode_char, write_base32, read_base32, generate_ulid, is_digit_char, first_le_7,
  is_valid_ulid, ulid_timestamp, or_epoch, short_id,
}
use contextsnap.Ulid.Alphabet.{decode_char-alphabet, decode_char-lt}
use contextsnap.Ulid.RoundTrip.{places, length-write_base32}

all-write_base32 :
    (n w : ℕ) (after : Bytes) → all is_digit_char (write_base32 n w after) ≡ all is_digit_char after
unfolding write_base32
all-write_base32 zero w after = refl
all-write_base32 (suc n) w after = ground (
  arith,
  all-write_base32 n (w / 32) (get_or alphabet (w % 32) 0 ∷ after),
  decode_char-alphabet (w % 32) (omega arith),
)

abbrev top_digit : ℕ → ℕ → ℕ
top_digit zero w = w % 32
top_digit (suc n) w = top_digit n (w / 32)

first-write_base32 :
    (n w : ℕ) (after : Bytes) → first_le_7 (write_base32 (suc n) w after) ≡ leb (top_digit n w) 7
unfolding write_base32
first-write_base32 zero w after = ground (arith, decode_char-alphabet (w % 32) (omega arith))
first-write_base32 (suc n) w after =
    first-write_base32 n (w / 32) (get_or alphabet (w % 32) 0 ∷ after)

top_small : (w : ℕ) → w < 2 ^ 48 → leb (top_digit 9 w) 7 ≡ true
top_small w h = le→leb (top_digit 9 w) 7 (omega arith)

valid_of :
    (text : Bytes)
    → length text ≡ 26
    → all is_digit_char text ≡ true
    → first_le_7 text ≡ true
    → is_valid_ulid text ≡ true
unfolding is_valid_ulid
valid_of text l a f = rw l (rw a f)

-- Every generated identifier is valid, whatever the time and the random words.
pub is_valid_ulid-generate_ulid :
    (millis : ℤ) (hi lo : ℕ) → is_valid_ulid (generate_ulid millis hi lo) ≡ true
unfolding is_valid_ulid generate_ulid
is_valid_ulid-generate_ulid millis hi lo =
    let w = pos_part millis % 2 ^ 48 in
    let s = write_base32 8 (lo % 2 ^ 40) [] in
    let t = write_base32 8 (hi % 2 ^ 40) s in
    valid_of (write_base32 10 w t)
      (omega (
        arith,
        length-write_base32 10 w t,
        length-write_base32 8 (hi % 2 ^ 40) s,
        length-write_base32 8 (lo % 2 ^ 40) [],
      ))
      (all-write_base32 10 w t
        ∙ all-write_base32 8 (hi % 2 ^ 40) s
        ∙ all-write_base32 8 (lo % 2 ^ 40) [])
      (first-write_base32 9 w t ∙ top_small w (omega arith))

read_base32-lt :
    (n : ℕ) (text : Bytes) (m bound r : ℕ)
    → m < bound
    → read_base32 n text m ≡ some r
    → r < bound * places n
unfolding read_base32
read_base32-lt zero text m bound r h e = ground arith
read_base32-lt (suc n) [] m bound r h e = cc
read_base32-lt (suc n) (c ∷ cs) m bound r h e = elim (Option-cases (decode_char c)) [
  | inl bad ↦ absurd (ground arith)
  | inr (v, good) ↦ omega (
    arith,
    read_base32-lt n cs (m * 32 % 2 ^ 64 + v) (bound * 32) r
        (omega (arith, decode_char-lt c v good)) (ground arith),
  )
]

first_digit :
    (c : ℕ) (cs : Bytes) (n r : ℕ)
    → first_le_7 (c ∷ cs) ≡ true
    → read_base32 (suc n) (c ∷ cs) 0 ≡ some r
    → r < 8 * places n
unfolding read_base32
first_digit c cs n r f e = elim (Option-cases (decode_char c)) [
  | inl bad ↦ absurd (ground arith)
  | inr (v, good) ↦ read_base32-lt n cs (0 * 32 % 2 ^ 64 + v) 8 r (ground arith) (ground arith)
]

or_epoch-lt :
    (o : Option ℕ) (bound : ℕ) → 0 < bound → ((r : ℕ) → o ≡ some r → r < bound) → or_epoch o < bound
or_epoch-lt none bound h k = h
or_epoch-lt (some r) bound h k = k r refl

valid_parts :
    (text : Bytes) → is_valid_ulid text ≡ true → (length text ≡ 26) × (first_le_7 text ≡ true)
unfolding is_valid_ulid
valid_parts text h = if_parts (length text) (all is_digit_char text) (first_le_7 text) h
  where
    if_parts :
        (n : ℕ) (a f : Bool)
        → (if n == 26 then (if a then f else false) else false) ≡ true
        → (n ≡ 26) × (f ≡ true)
    if_parts n a f k = ground arith

timestamp_bound :
    (text : Bytes)
    → length text ≡ 26
    → or_epoch (read_base32 10 text 0) < 2 ^ 48
    → ulid_timestamp text < 2 ^ 48
unfolding ulid_timestamp
timestamp_bound text l h = rw l h

-- A valid identifier carries a time below 2 ^ 48 milliseconds: its first character can only hold
-- three bits.
pub ulid_timestamp-lt_of_valid :
    (text : Bytes) → is_valid_ulid text ≡ true → ulid_timestamp text < 2 ^ 48
ulid_timestamp-lt_of_valid [] h = absurd (omega (arith, (valid_parts [] h).0))
ulid_timestamp-lt_of_valid (c ∷ cs) h =
    let (l, f) = valid_parts (c ∷ cs) h in
    timestamp_bound (c ∷ cs) l (
      or_epoch-lt (read_base32 10 (c ∷ cs) 0) (2 ^ 48) (omega arith)
        (λ r e. omega (arith, first_digit c cs 9 r f e)))

tail_parts :
    (ulid : Bytes) (len : ℕ)
    → 0 < len
    → (take (length ulid - min len (length ulid)) ulid ++ short_id ulid len ≡ ulid)
      × (length (short_id ulid len) ≡ min len (length ulid))
unfolding short_id
tail_parts [] len h = (rw (nothing len) (ground arith), ground arith)
  where
    nothing : (n : ℕ) → 0 - min n 0 ≡ 0
    nothing n = omega arith
tail_parts (c ∷ cs) len h = rw positive (
  take-append-drop (size - min len size) (c ∷ cs),
  length-drop (size - min len size) (c ∷ cs) ∙ rest len size,
)
  where
    size : ℕ
    size = suc (length cs)

    positive : (len == 0) ≡ false
    positive = ground arith

    rest : (k n : ℕ) → n - (n - min k n) ≡ min k n
    rest k n = omega arith

-- A short id is the tail of the identifier, of the asked length where there are so many
-- characters.
pub short_id_suffix :
    (ulid : Bytes) (len : ℕ)
    → (take (length ulid - min len (length ulid)) ulid ++ short_id ulid len ≡ ulid)
      × (length (short_id ulid len) ≡ min len (length ulid))
unfolding short_id
short_id_suffix [] len = (nil_case len, ground arith)
  where
    nil_case : (n : ℕ) → take (0 - min n 0) [] ++ short_id [] n ≡ []
    nil_case n = let e : 0 - min n 0 ≡ 0 = omega arith in rw e (ground arith)
short_id_suffix (c ∷ cs) zero =
    (append-nil _ ∙ rw (whole (suc (length cs))) (take-length (c ∷ cs)), omega arith)
  where
    whole : (n : ℕ) → n - min 0 n ≡ n
    whole n = omega arith
short_id_suffix (c ∷ cs) (suc len) = tail_parts (c ∷ cs) (suc len) (omega arith)
