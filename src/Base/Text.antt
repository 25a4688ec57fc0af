-- ===== src/Base/Text.antt =====
-- Byte strings: `std::string` and `std::string_view` as lists of numbers below 256, with the
-- members and the character functions (in the "C" locale) that the program calls.
use Prim.Native.Nat.{ℕ, ◌+◌}
use Prim.Native.Char.{code}
use Prim.Native.String.{String}
use mathlib.Core.Path.{◌≡◌, refl}
use mathlib.Core.Logic.{◌↔◌}
use mathlib.Core.Bool.{Bool, true, false, ◌&&◌, ◌||◌}
use mathlib.Core.Option.{Option, none, some}
use mathlib.Core.List.{List, [], ◌∷◌, map}
use native.Mathlib.Omega.{arith}
use contextsnap.Base.Tests.{leb, ◌==◌, if◌then◌else◌}

abbrev pub Bytes : Type 0
Bytes = List ℕ

-- A string literal.
abbrev pub codes : String → Bytes
codes String.[] = []
codes (String.◌∷◌ c s) = code c ∷ codes s

abbrev pub bytes_eq : Bytes → Bytes → Bool
bytes_eq [] [] = true
bytes_eq [] (_ ∷ _) = false
bytes_eq (_ ∷ _) [] = false
bytes_eq (a ∷ s) (b ∷ t) = (a == b) && bytes_eq s t

pub eq_of_bytes_eq : (s t : Bytes) → bytes_eq s t ≡ true → s ≡ t
eq_of_bytes_eq [] [] h = refl
eq_of_bytes_eq [] (_ ∷ _) h = cc
eq_of_bytes_eq (_ ∷ _) [] h = cc
eq_of_bytes_eq (a ∷ s) (b ∷ t) h = ground (arith, eq_of_bytes_eq s t)

pub bytes_eq_refl : (s : Bytes) → bytes_eq s s ≡ true
bytes_eq_refl [] = refl
bytes_eq_refl (a ∷ s) = ground (arith, bytes_eq_refl s)

pub bytes_eq_iff : (s t : Bytes) → (bytes_eq s t ≡ true) ↔ (s ≡ t)
bytes_eq_iff s t = (eq_of_bytes_eq s t, λ e. rw e (bytes_eq_refl t))

-- `std::tolower`.
unfoldable pub to_lower : ℕ → ℕ
to_lower c = if leb b'A' c && leb c b'Z' then c + 32 else c

unfoldable pub lower : Bytes → Bytes
unfolding to_lower
lower s = map to_lower s

pub to_lower_idem : (c : ℕ) → to_lower (to_lower c) ≡ to_lower c
unfolding to_lower
to_lower_idem c = ground arith

pub lower_idem : (s : Bytes) → lower (lower s) ≡ lower s
unfolding lower
lower_idem [] = refl
lower_idem (c ∷ s) = cc (to_lower_idem c, lower_idem s)

-- `text.find(prefix) == 0`, and `text.rfind(prefix, 0) == 0`.
abbrev pub starts_with : Bytes → Bytes → Bool
starts_with s [] = true
starts_with [] (_ ∷ _) = false
starts_with (a ∷ s) (b ∷ p) = (a == b) && starts_with s p

-- `find` of a character that passes a test: `substr(0, i)` and, behind the character, `substr(i + 1)`.
unfoldable pub cut_first : (ℕ → Bool) → Bytes → Option (Bytes × Bytes)
cut_first p [] = none
cut_first p (c ∷ s) =
    if p c
    then some ([], s)
    else elim (cut_first p s) [ none ↦ none | some (before, after) ↦ some (c ∷ before, after) ]

-- `rfind` of a character, cut in the same way.
unfoldable pub cut_last : (ℕ → Bool) → Bytes → Option (Bytes × Bytes)
cut_last p [] = none
cut_last p (c ∷ s) = elim (cut_last p s) [
  | none ↦ if p c then some ([], s) else none
  | some (before, after) ↦ some (c ∷ before, after)
]

-- `find_first_of`, with the text from the character on; the whole text when there is none.
unfoldable pub break_at : (ℕ → Bool) → Bytes → Bytes × Bytes
break_at p [] = ([], [])
break_at p (c ∷ s) =
    let (before, after) = break_at p s in if p c then ([], c ∷ s) else (c ∷ before, after)

-- `text.find(part) != npos`.
unfoldable pub has_part : Bytes → Bytes → Bool
has_part [] part = starts_with [] part
has_part (c ∷ s) part = starts_with (c ∷ s) part || has_part s part
