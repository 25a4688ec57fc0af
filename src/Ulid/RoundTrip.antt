-- ===== src/Ulid/RoundTrip.antt =====
-- The time that a generated identifier carries is read back from it.
use contextsnap.Base.{
  ℕ, zero, suc, ◌+◌, ◌*◌, ◌/◌, ◌%◌, ◌^◌, ◌<◌, ◌≤◌, ◌≡◌, ap, ◌∙◌, [], ◌∷◌, Bytes, length, get_or,
  arith,
}
use contextsnap.Base.Int.{ℤ, pos_part}
use contextsnap.Ulid.{alphabet, write_base32, read_base32, generate_ulid, ulid_timestamp}
use contextsnap.Ulid.Alphabet.{decode_char-alphabet}

-- The low 5 * n bits of a word, digit by digit, and 32 ^ n.
abbrev low_digits : ℕ → ℕ → ℕ
low_digits zero w = 0
low_digits (suc n) w = low_digits n (w / 32) * 32 + w % 32

abbrev pub places : ℕ → ℕ
places zero = 1
places (suc n) = places n * 32

low_digits-lt : (n w : ℕ) → low_digits n w < places n
low_digits-lt zero w = omega arith
low_digits-lt (suc n) w = omega (arith, low_digits-lt n (w / 32))

read_step :
    (k w m : ℕ) (after : Bytes)
    → (m + 1) * 32 ≤ 2 ^ 64
    → read_base32 (suc k) (get_or alphabet (w % 32) 0 ∷ after) m
      ≡ read_base32 k after (m * 32 + w % 32)
unfolding read_base32
read_step k w m after h = ground (arith, decode_char-alphabet (w % 32), mod_small (m * 32))
  where
    mod_small : (a : ℕ) → a < 2 ^ 64 → a % 2 ^ 64 ≡ a
    mod_small a p = omega arith

read_write :
    (n k w m : ℕ) (after : Bytes)
    → (m + 1) * places n ≤ 2 ^ 64
    → read_base32 (n + k) (write_base32 n w after) m
      ≡ read_base32 k after (m * places n + low_digits n w)
unfolding write_base32
read_write zero k w m after h = ap₂_read (omega arith) (omega arith)
  where
    ap₂_read : {a b : ℕ} {x y : ℕ} → a ≡ b → x ≡ y → read_base32 a after x ≡ read_base32 b after y
    ap₂_read p q = cc
read_write (suc n) k w m after h =
    let c = get_or alphabet (w % 32) 0 in
    let v = m * places n + low_digits n (w / 32) in
    read_at (omega arith)
    ∙ read_write n (suc k) (w / 32) m (c ∷ after) (omega arith)
    ∙ read_step k w v after (omega (arith, low_digits-lt n (w / 32)))
    ∙ ap (read_base32 k after) (omega arith)
  where
    read_at :
        {a b : ℕ}
        → a ≡ b
        → read_base32 a (write_base32 n (w / 32) (get_or alphabet (w % 32) 0 ∷ after)) m
          ≡ read_base32 b (write_base32 n (w / 32) (get_or alphabet (w % 32) 0 ∷ after)) m
    read_at p =
        ap (λ a. read_base32 a (write_base32 n (w / 32) (get_or alphabet (w % 32) 0 ∷ after)) m) p

pub length-write_base32 :
    (n w : ℕ) (after : Bytes) → length (write_base32 n w after) ≡ n + length after
unfolding write_base32
length-write_base32 zero w after = omega arith
length-write_base32 (suc n) w after =
    omega (arith, length-write_base32 n (w / 32) (get_or alphabet (w % 32) 0 ∷ after))

timestamp_digits : (w : ℕ) → w < 2 ^ 48 → 0 * places 10 + low_digits 10 w ≡ w
timestamp_digits w h = omega arith

-- The identifier carries the time: below 2 ^ 48 milliseconds it is read back whole, and a time
-- before the epoch as 0.
pub ulid_timestamp-generate_ulid :
    (millis : ℤ) (hi lo : ℕ)
    → ulid_timestamp (generate_ulid millis hi lo) ≡ pos_part millis % 2 ^ 48
unfolding ulid_timestamp generate_ulid
ulid_timestamp-generate_ulid millis hi lo =
    let w = pos_part millis % 2 ^ 48 in
    let after = write_base32 8 (hi % 2 ^ 40) (write_base32 8 (lo % 2 ^ 40) []) in
    ground (
      arith,
      length-write_base32 10 w after,
      read_write 10 0 w 0 after (omega arith),
      timestamp_digits w (omega arith),
    )
