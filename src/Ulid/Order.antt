-- ===== src/Ulid/Order.antt =====
-- Identifiers sort as text in the order of their times, and then of their random words.
use contextsnap.Base.{
  ℕ, zero, suc, ◌/◌, ◌%◌, ◌^◌, ◌<◌, ◌≡◌, ◌∙◌, ap, Bool, true, false, [], ◌∷◌, Bytes, get_or, ltb,
  ◌==◌, if◌then◌else◌, arith,
}
use contextsnap.Base.Int.{ℤ, pos_part}
use contextsnap.Ulid.{alphabet, write_base32, generate_ulid}
use contextsnap.Ulid.Alphabet.{alphabet_order}
use contextsnap.Ulid.RoundTrip.{places}

-- `std::string`'s operator <, and that of SQLite's text order.
abbrev pub lex_lt : Bytes → Bytes → Bool
lex_lt [] [] = false
lex_lt [] (_ ∷ _) = true
lex_lt (_ ∷ _) [] = false
lex_lt (a ∷ s) (b ∷ t) = if a == b then lex_lt s t else ltb a b

chars_order :
    (v w a b : ℕ) (s t : Bytes)
    → (v ≡ w → a ≡ b)
    → (if ltb v w then ltb a b else if v == w then true else ltb b a) ≡ true
    → lex_lt (a ∷ s) (b ∷ t) ≡ (if v == w then lex_lt s t else ltb v w)
chars_order v w a b s t same order = ground arith

digit_order :
    (v w : ℕ) (s t : Bytes)
    → v < 32
    → w < 32
    → lex_lt (get_or alphabet v 0 ∷ s) (get_or alphabet w 0 ∷ t)
      ≡ (if v == w then lex_lt s t else ltb v w)
digit_order v w s t h k =
    chars_order v w (get_or alphabet v 0) (get_or alphabet w 0) s t
      (λ e. ap (λ n. get_or alphabet n 0) e) (alphabet_order v w h k)

write_order :
    (n v w : ℕ) (s t : Bytes)
    → v < places n
    → w < places n
    → lex_lt (write_base32 n v s) (write_base32 n w t) ≡ (if v == w then lex_lt s t else ltb v w)
unfolding write_base32
write_order zero v w s t h k = ground arith
write_order (suc n) v w s t h k =
    let a = get_or alphabet (v % 32) 0 in
    let b = get_or alphabet (w % 32) 0 in
    write_order n (v / 32) (w / 32) (a ∷ s) (b ∷ t) (omega arith) (omega arith)
    ∙ join (digit_order (v % 32) (w % 32) s t (omega arith) (omega arith))
  where
    join :
        {x : Bool}
        → x ≡ (if v % 32 == w % 32 then lex_lt s t else ltb (v % 32) (w % 32))
        → (if v / 32 == w / 32 then x else ltb (v / 32) (w / 32))
          ≡ (if v == w then lex_lt s t else ltb v w)
    join p = ground arith

-- The order of the parts: time, then the first random word, then the second.
abbrev pub parts_lt : ℕ → ℕ → ℕ → ℕ → ℕ → ℕ → Bool
parts_lt time hi lo time' hi' lo' =
    if time == time' then (if hi == hi' then ltb lo lo' else ltb hi hi') else ltb time time'

-- The text order of two identifiers is the order of what they hold: the times (mod 2 ^ 48), and
-- for equal times the low 40 bits of the random words.
pub lex_lt-generate_ulid :
    (m m' : ℤ) (hi lo hi' lo' : ℕ)
    → lex_lt (generate_ulid m hi lo) (generate_ulid m' hi' lo')
      ≡ parts_lt
          (pos_part m % 2 ^ 48)
          (hi % 2 ^ 40)
          (lo % 2 ^ 40)
          (pos_part m' % 2 ^ 48)
          (hi' % 2 ^ 40)
          (lo' % 2 ^ 40)
unfolding generate_ulid
lex_lt-generate_ulid m m' hi lo hi' lo' =
    let a = pos_part m % 2 ^ 48 in
    let a' = pos_part m' % 2 ^ 48 in
    let b = hi % 2 ^ 40 in
    let b' = hi' % 2 ^ 40 in
    let c = lo % 2 ^ 40 in
    let c' = lo' % 2 ^ 40 in
    let s = write_base32 8 c [] in
    let s' = write_base32 8 c' [] in
    ground (
      arith,
      write_order 10 a a' (write_base32 8 b s) (write_base32 8 b' s') (omega arith) (omega arith),
      write_order 8 b b' s s' (omega arith) (omega arith),
      write_order 8 c c' [] [] (omega arith) (omega arith),
    )
