-- ===== src/Json/Parser.antt =====
-- src/core/json.cpp: the parser of values, and `parse`.
use contextsnap.Base.{
  Bool, Bytes, Option, [], codes, drop, false, if◌then◌else◌, is_empty, length, ltb, none, some,
  starts_with, suc, true, zero, ℕ, ◌&&◌, ◌+◌, ◌==◌, ◌||◌, ◌∷◌,
}
use contextsnap.Errors.{Result, error, invalid, value}
use contextsnap.Json.{
  DoubleText, Items, Members, Value, array, bool, item, member, no_items, no_members, null, object,
  string,
}
use contextsnap.Json.Outcome.{Outcome, bind, fail, failed, out_of_fuel, parsed}
use contextsnap.Json.Number.{parse_number}
use contextsnap.Json.Strings.{parse_string}

abbrev pub is_blank : ℕ → Bool
is_blank c = c == b' ' || c == 9 || c == 10 || c == 13

unfoldable pub skip_whitespace : Bytes → Bytes
skip_whitespace [] = []
skip_whitespace (c ∷ s) = let rest = skip_whitespace s in if is_blank c then rest else c ∷ s

-- `consume`: the text behind the character, where it stands there.
abbrev pub consume : ℕ → Bytes → Option Bytes
consume c [] = none
consume c (d ∷ s) = if d == c then some s else none

unfoldable pub literal : ℕ → Bytes → Value → Bytes → Outcome Value
literal total word v s =
    if starts_with s word
    then parsed v (drop (length word) s)
    else fail total (codes "invalid literal") s

-- What follows an element: another one, the end, or an error.
abbrev pub follow {ℓ} :
    {A : Type ℓ} → ℕ → ℕ → Bytes → A → (A → A) → (Bytes → Outcome A) → Bytes → Outcome A
follow total close message last more again s = elim (consume b',' s) [
  | some t ↦ bind (again t) (λ a rest. parsed (more a) rest)
  | none ↦ elim (consume close s) [ some t ↦ parsed last t | none ↦ fail total message s ]
]

-- A key and the colon behind it.
unfoldable pub parse_key : ℕ → Bytes → Outcome Bytes
unfolding skip_whitespace parse_string
parse_key total s = elim (consume b'"' s) [
  | none ↦ fail total (codes "expected object key") s
  | some t ↦ bind (parse_string total t) λ key u.
      let after = skip_whitespace u in
      elim (consume b':' after) [
        | none ↦ fail total (codes "expected ':' after object key") after
        | some rest ↦ parsed key rest
      ]
]

-- The loops take the parser of the nested values, one nesting level further down.
module _ (total : ℕ) (value_parser : Bytes → Outcome Value) where
  unfoldable pub items_loop : ℕ → Bytes → Outcome Items
  unfolding skip_whitespace
  items_loop zero s = out_of_fuel
  items_loop (suc f) s = bind (value_parser s) λ v t.
      follow total b']' (codes "expected ',' or ']' in array") (item v no_items) (item v)
        (items_loop f) (skip_whitespace t)

  unfoldable pub parse_array : Bytes → Outcome Value
  unfolding items_loop
  parse_array s =
      let t = skip_whitespace s in
      elim (consume b']' t) [
        | some rest ↦ parsed (array no_items) rest
        | none ↦ bind (items_loop (suc (length t)) t) (λ xs rest. parsed (array xs) rest)
      ]

  unfoldable pub members_loop : ℕ → Bytes → Outcome Members
  unfolding skip_whitespace parse_key
  members_loop zero s = out_of_fuel
  members_loop (suc f) s = bind (parse_key total (skip_whitespace s)) λ key t.
      bind (value_parser t) λ v u.
        follow total b'}' (codes "expected ',' or '}' in object") (member key v no_members)
          (member key v) (members_loop f) (skip_whitespace u)

  unfoldable pub parse_object : Bytes → Outcome Value
  unfolding members_loop
  parse_object s =
      let t = skip_whitespace s in
      elim (consume b'}' t) [
        | some rest ↦ parsed (object no_members) rest
        | none ↦ bind (members_loop (suc (length t)) t) (λ ms rest. parsed (object ms) rest)
      ]

abbrev pub max_depth : ℕ
max_depth = 128

-- `switch (text_[pos_])`.
unfoldable pub value_at : DoubleText → ℕ → (Bytes → Outcome Value) → Bytes → Outcome Value
unfolding parse_object parse_array parse_string literal parse_number
value_at fp total nested [] = fail total (codes "unexpected end of input") []
value_at fp total nested (c ∷ s) =
    if c == b'{'
    then parse_object total nested s
    else if c == b'['
    then parse_array total nested s
    else if c == b'"'
    then bind (parse_string total s) (λ text rest. parsed (string text) rest)
    else if c == b't'
    then literal total (codes "true") (bool true) (c ∷ s)
    else if c == b'f'
    then literal total (codes "false") (bool false) (c ∷ s)
    else if c == b'n'
    then literal total (codes "null") null (c ∷ s)
    else parse_number fp total (c ∷ s)

-- The fuel falls as the depth grows, so that 130 at depth 0 is enough.
unfoldable pub parse_value : DoubleText → ℕ → ℕ → ℕ → Bytes → Outcome Value
unfolding value_at skip_whitespace
parse_value fp total zero depth s = out_of_fuel
parse_value fp total (suc f) depth s =
    if ltb max_depth depth
    then fail total (codes "maximum nesting depth exceeded") s
    else value_at fp total (parse_value fp total f (depth + 1)) (skip_whitespace s)

-- `Parser::parse`.
unfoldable pub parse_all : DoubleText → Bytes → Outcome Value
parse_all fp text = bind (parse_value fp (length text) 130 0 (skip_whitespace text)) λ v s.
    let rest = skip_whitespace s in
    if is_empty rest
    then parsed v []
    else fail (length text) (codes "trailing characters after top-level value") rest

-- A byte order mark is taken off.
unfoldable pub without_bom : Bytes → Bytes
without_bom (a ∷ b ∷ c ∷ s) = if a == 0xEF && b == 0xBB && c == 0xBF then s else a ∷ b ∷ c ∷ s
without_bom s = s

-- `parse`; the code has no outcome for a lack of fuel, which does not occur.
abbrev pub result_of : Outcome Value → Result Value
result_of (parsed v s) = value v
result_of (failed e) = error e
result_of out_of_fuel = error (invalid [] [])

unfoldable pub parse : DoubleText → Bytes → Result Value
parse fp text =
    if is_empty text
    then error (invalid (codes "empty JSON document") (codes "json.parse"))
    else result_of (parse_all fp (without_bom text))
