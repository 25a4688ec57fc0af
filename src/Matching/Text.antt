-- ===== src/Matching/Text.antt =====
-- The text functions of src/core/matching.cpp: normal forms of application ids and titles, and
-- tokens. An output string that the code appends to is the list that the function returns.
pub mod Collapse
pub mod Pieces
pub mod Normal
use contextsnap.Base.{
  Bool, Bytes, List, Option, [], any, bytes_eq, codes, cut_first, cut_last, drop, false,
  if◌then◌else◌, is_empty, leb, length, lower, ltb, map, none, not, some, starts_with, suc, take,
  to_lower, true, zero, ℕ, ◌&&◌, ◌++◌, ◌-◌, ◌==◌, ◌||◌, ◌∷◌,
}

unfoldable pub is_separator : ℕ → Bool
is_separator c =
    c == b' '
    || c == 9
    || c == b'-'
    || c == b'_'
    || c == b'.'
    || c == b':'
    || c == b'/'
    || c == b'\\'
    || c == b'|'
    || c == b','
    || c == b'('
    || c == b')'
    || c == b'['
    || c == b']'

-- The loop of `collapse_spaces`: `started` is `!out.empty()`.
unfoldable pub collapse_from : Bool → Bool → Bytes → Bytes
collapse_from started pending [] = []
collapse_from started pending (c ∷ s) =
    let at_space = collapse_from started started s in
    let rest = collapse_from true false s in
    if c == b' ' then at_space else if pending then b' ' ∷ c ∷ rest else c ∷ rest

unfoldable pub collapse_spaces : Bytes → Bytes
unfolding collapse_from
collapse_spaces = collapse_from false false

-- The loop of `tokenize`, with `current`.
unfoldable pub tokens_from : Bytes → Bytes → List Bytes
tokens_from current [] = if is_empty current then [] else current ∷ []
tokens_from current (c ∷ s) =
    let next = tokens_from [] s in
    let longer = tokens_from (current ++ c ∷ []) s in
    if c == b' ' then (if is_empty current then next else current ∷ next) else longer

unfoldable pub tokenize : Bytes → List Bytes
unfolding tokens_from
tokenize = tokens_from []

unfoldable pub ends_with : Bytes → Bytes → Bool
ends_with text suffix =
    leb (length suffix) (length text) && bytes_eq (drop (length text - length suffix) text) suffix

-- `substr` behind the last character that passes the test; the whole string when there is none.
unfoldable pub after_last : (ℕ → Bool) → Bytes → Bytes
unfolding cut_last
after_last p s = elim (cut_last p s) [ none ↦ s | some (before, after) ↦ after ]

-- `find` of a part, with the text before it.
unfoldable pub before_part : Bytes → Bytes → Option Bytes
before_part part [] = none
before_part part (c ∷ s) =
    if starts_with (c ∷ s) part
    then some []
    else elim (before_part part s) [ none ↦ none | some before ↦ some (c ∷ before) ]

abbrev pub is_slash : ℕ → Bool
is_slash c = c == b'/' || c == b'\\'

abbrev pub is_dot : ℕ → Bool
is_dot c = c == b'.'

-- `std::count`.
unfoldable pub count_if {ℓ} : {A : Type ℓ} → (A → Bool) → List A → ℕ
count_if p [] = 0
count_if p (x ∷ xs) = if p x then suc (count_if p xs) else count_if p xs

unfoldable pub is_reverse_dns : Bytes → Bool
unfolding count_if ends_with
is_reverse_dns v =
    not (any is_slash v) && leb 2 (count_if is_dot v) && not (ends_with v (codes ".exe"))

-- The last part of a path, or the bundle that an inner path belongs to.
unfoldable pub last_component : Bytes → Bytes
unfolding cut_last before_part after_last
last_component v = elim (cut_last is_slash v) [
  | none ↦ v
  | some (before, after) ↦ elim (before_part (codes ".app/") v) [
    | none ↦ after
    | some front ↦ after_last is_slash front
  ]
]

-- The loop over the suffixes, which ends at the first that fits.
unfoldable pub without_suffix : List Bytes → Bytes → Bytes
unfolding ends_with
without_suffix [] v = v
without_suffix (suffix ∷ suffixes) v =
    if ends_with v suffix then take (length v - length suffix) v else without_suffix suffixes v

abbrev pub suffixes : List Bytes
suffixes = codes ".exe" ∷ codes ".app" ∷ codes ".desktop" ∷ codes ".bin" ∷ []

unfoldable pub stem : Bytes → Bytes
unfolding is_reverse_dns after_last last_component without_suffix
stem v =
    if is_reverse_dns v then after_last is_dot v else without_suffix suffixes (last_component v)

unfoldable pub spaced : Bytes → Bytes
unfolding is_separator
spaced s = map (λ c. if is_separator c then b' ' else c) s

-- `normalize_app_id`; the empty string needs no case of its own.
unfoldable pub normalize_app_id : Bytes → Bytes
unfolding lower stem spaced collapse_spaces
normalize_app_id [] = []
normalize_app_id (c ∷ s) = collapse_spaces (spaced (stem (lower (c ∷ s))))

-- The `while` loop that replaces a marker by a space; `skip` counts its characters that are left.
unfoldable pub replace_part : Bytes → ℕ → Bytes → Bytes
replace_part part skip [] = []
replace_part part (suc skip) (c ∷ s) = replace_part part skip s
replace_part part zero (c ∷ s) =
    let behind = replace_part part (length part - 1) s in
    let rest = replace_part part 0 s in if starts_with (c ∷ s) part then b' ' ∷ behind else c ∷ rest

-- The bullets and dashes, in UTF-8.
abbrev pub markers : List Bytes
markers =
    (226 ∷ 151 ∷ 143 ∷ [])
    ∷ (226 ∷ 128 ∷ 162 ∷ [])
    ∷ (226 ∷ 128 ∷ 148 ∷ [])
    ∷ (226 ∷ 128 ∷ 147 ∷ [])
    ∷ []

unfoldable pub replace_markers : List Bytes → Bytes → Bytes
unfolding replace_part
replace_markers [] v = v
replace_markers (m ∷ ms) v = replace_markers ms (replace_part m 0 v)

-- A counter such as "(3)" in front.
unfoldable pub without_counter : Bytes → Bytes
unfolding cut_first
without_counter [] = []
without_counter (c ∷ s) =
    if not (c == b'(') then c ∷ s else elim (cut_first (λ d. d == b')') (c ∷ s)) [
      | none ↦ c ∷ s
      | some (before, after) ↦ if leb (length before) 4 then after else c ∷ s
    ]

unfoldable pub cleaned_title : Bytes → Bytes
unfolding is_separator
cleaned_title [] = []
cleaned_title (c ∷ s) =
    let rest = cleaned_title s in
    if c == b'*' || c == 226 then rest else (if is_separator c then b' ' else c) ∷ rest

unfoldable pub normalize_title : Bytes → Bytes
unfolding to_lower replace_markers without_counter cleaned_title collapse_spaces
normalize_title raw = collapse_spaces (
    cleaned_title (
      without_counter
        (replace_markers markers (map (λ c. if ltb c 128 then to_lower c else c) raw))))
