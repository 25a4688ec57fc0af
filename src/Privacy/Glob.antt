-- ===== src/Privacy/Glob.antt =====
-- `glob_match` of src/privacy/sanitizer.cpp. A position in a string is the rest of the string from
-- there: `star` is the pattern behind the last `*`, with the text from `match` on.
pub mod Spec
pub mod Rounds
pub mod Ends
pub mod Correct
mod Tests
use contextsnap.Base.{
  Bool, Bytes, Option, [], false, if◌then◌else◌, length, none, some, suc, to_lower, true, zero, ℕ,
  ◌*◌, ◌+◌, ◌==◌, ◌||◌, ◌∷◌,
}

abbrev pub tail : Bytes → Bytes
tail [] = []
tail (c ∷ t) = t

-- `while (p < pattern.size() && pattern[p] == '*') ++p; return p == pattern.size();`
unfoldable pub only_stars : Bytes → Bool
only_stars [] = true
only_stars (q ∷ p) = if q == b'*' then only_stars p else false

abbrev pub one_char : ℕ → ℕ → Bool
one_char q c = q == b'?' || to_lower q == to_lower c

-- The loop, on fuel; `none` means that the fuel ran out.
unfoldable pub glob_loop : ℕ → Bytes → Bytes → Option (Bytes × Bytes) → Option Bool
glob_loop zero p t star = none
glob_loop (suc f) p [] star = some (only_stars p)
glob_loop (suc f) [] (c ∷ t) star = elim star [
  | none ↦ some false
  | some (q, m) ↦ glob_loop f q (tail m) (some (q, tail m))
]
glob_loop (suc f) (a ∷ p) (c ∷ t) star = elim (one_char a c) [
  | true ↦ glob_loop f p t star
  | false ↦ elim (a == b'*') [
    | true ↦ glob_loop f p (c ∷ t) (some (p, c ∷ t))
    | false ↦ elim star [
      | none ↦ some false
      | some (q, m) ↦ glob_loop f q (tail m) (some (q, tail m))
    ]
  ]
]

-- Rounds that suffice for a pattern and a text of these lengths.
abbrev pub glob_fuel : ℕ → ℕ → ℕ
glob_fuel p t = t * (p + t + 1) + t + p + 1

abbrev or_false : Option Bool → Bool
or_false none = false
or_false (some b) = b

unfoldable pub glob_match : Bytes → Bytes → Bool
unfolding glob_loop only_stars to_lower
glob_match pattern text =
    or_false (glob_loop (glob_fuel (length pattern) (length text)) pattern text none)
