-- ===== src/Json.antt =====
-- include/contextsnap/core/json.hpp and src/core/json.cpp: JSON values, their accessors and their
-- mutation. The parser, the printer and their proofs are in the modules below.
pub mod Escape
pub mod Printer
pub mod Outcome
pub mod Number
pub mod Strings
pub mod Parser
pub mod Digits
pub mod Quoted
pub mod RoundTrip
pub mod Total
mod Tests
-- `Value::Storage`; the vectors of an array and of an object are lists of the block.
use contextsnap.Base.{
  Bool, Bytes, Option, [], bytes_eq, cut_first, false, if◌then◌else◌, is_empty, length, ltb, none,
  some, suc, true, zero, ℕ, ◌%◌, ◌*◌, ◌+◌, ◌-◌, ◌==◌, ◌^◌, ◌||◌, ◌∷◌,
}
use contextsnap.Base.Int.{pos, ℤ}
use contextsnap.Base.Double.{Double}

mutual
  pub data Value : Type 0 where
    null : Value
    bool : Bool → Value
    int : ℤ → Value
    double : Double → Value
    string : Bytes → Value
    array : Items → Value
    object : Members → Value

  pub data Items : Type 0 where
    no_items : Items
    item : Value → Items → Items

  pub data Members : Type 0 where
    no_members : Members
    member : Bytes → Value → Members → Members

-- What the code asks of the C library about doubles: `std::isnan` or `std::isinf`, `%.*g` at a
-- precision, `std::strtod`, `std::stod` (`none` when it throws), and the conversions.
pub record DoubleText : Type 0 where
  pub is_special : Double → Bool
  pub print : ℕ → Double → Bytes
  pub strtod : Bytes → Double
  pub stod : Bytes → Option Double
  pub eq : Double → Double → Bool
  pub to_int64 : Double → ℤ
  pub of_int : ℤ → Double

pub data ValueType : Type 0 where
  null_type bool_type int_type double_type string_type array_type object_type : ValueType

unfoldable pub type_of : Value → ValueType
type_of null = null_type
type_of (bool b) = bool_type
type_of (int z) = int_type
type_of (double d) = double_type
type_of (string s) = string_type
type_of (array xs) = array_type
type_of (object ms) = object_type

unfoldable pub is_number : Value → Bool
is_number (int z) = true
is_number (double d) = true
is_number _ = false

unfoldable pub is_string : Value → Bool
is_string (string s) = true
is_string _ = false

unfoldable pub is_array : Value → Bool
is_array (array xs) = true
is_array _ = false

unfoldable pub is_object : Value → Bool
is_object (object ms) = true
is_object _ = false

abbrev is_nonzero : ℤ → Bool
is_nonzero (pos zero) = false
is_nonzero _ = true

unfoldable pub as_bool : Value → Bool → Bool
as_bool (bool b) fallback = b
as_bool (int z) fallback = is_nonzero z
as_bool _ fallback = fallback

unfoldable pub as_int : DoubleText → Value → ℤ → ℤ
as_int fp (int z) fallback = z
as_int fp (double d) fallback = fp.to_int64 d
as_int fp (bool b) fallback = if b then pos 1 else pos 0
as_int fp _ fallback = fallback

unfoldable pub as_double : DoubleText → Value → Double → Double
as_double fp (double d) fallback = d
as_double fp (int z) fallback = fp.of_int z
as_double fp _ fallback = fallback

unfoldable pub as_string : Value → Bytes → Bytes
as_string (string s) fallback = s
as_string _ fallback = fallback

unfoldable pub as_array : Value → Items
as_array (array xs) = xs
as_array _ = no_items

unfoldable pub as_object : Value → Members
as_object (object ms) = ms
as_object _ = no_members

unfoldable pub find_member : Bytes → Members → Option Value
find_member key no_members = none
find_member key (member k v ms) = if bytes_eq k key then some v else find_member key ms

-- `Value::find`; a null pointer is `none`.
unfoldable pub find : Value → Bytes → Option Value
unfolding find_member
find (object ms) key = find_member key ms
find _ key = none

unfoldable pub has_key : Value → Bytes → Bool
unfolding find
has_key v key = elim (find v key) [ none ↦ false | some _ ↦ true ]

unfoldable pub get_item? : Items → ℕ → Option Value
get_item? no_items i = none
get_item? (item v xs) zero = some v
get_item? (item v xs) (suc i) = get_item? xs i

-- The index of a segment that has only digits; the sums wrap in a `std::size_t`.
unfoldable pub index_from : ℕ → Bytes → Option ℕ
index_from i [] = some i
index_from i (c ∷ s) =
    let more = index_from ((i * 10 + (c - b'0')) % 2 ^ 64) s in
    if ltb c b'0' || ltb b'9' c then none else more

-- One round of `at_path`.
unfoldable pub step_into : Value → Bytes → Option Value
unfolding get_item? index_from find
step_into (array xs) segment = elim (index_from 0 segment) [ none ↦ none | some i ↦ get_item? xs i ]
step_into current segment = find current segment

-- The loop of `Value::at_path` over the text behind `start`.
unfoldable pub walk : ℕ → Value → Bytes → Option Value
unfolding step_into cut_first
walk zero current path = some current
walk (suc f) current path = elim (cut_first (λ c. c == b'.') path) [
  | none ↦ if is_empty path then none else step_into current path
  | some (segment, rest) ↦
      if is_empty segment
      then none
      else elim (step_into current segment) [ none ↦ none | some next ↦ walk f next rest ]
]

-- Each round but the last takes a dot.
unfoldable pub at_path : Value → Bytes → Option Value
unfolding walk
at_path v path = walk (suc (length path)) v path

unfoldable pub set_member : Bytes → Value → Members → Members
set_member key v no_members = member key v no_members
set_member key v (member k w ms) =
    if bytes_eq k key then member k v ms else member k w (set_member key v ms)

-- `Value::set` and `Value::push_back` replace a value of another type by an empty container.
unfoldable pub set : Value → Bytes → Value → Value
unfolding as_object set_member
set v key w = object (set_member key w (as_object v))

unfoldable pub append_item : Items → Value → Items
append_item no_items v = item v no_items
append_item (item w xs) v = item w (append_item xs v)

unfoldable pub push_back : Value → Value → Value
unfolding as_array append_item
push_back v w = array (append_item (as_array v) w)

unfoldable pub count_items : Items → ℕ
count_items no_items = 0
count_items (item v xs) = suc (count_items xs)

unfoldable pub count_members : Members → ℕ
count_members no_members = 0
count_members (member k v ms) = suc (count_members ms)

unfoldable pub size : Value → ℕ
unfolding count_items count_members
size (array xs) = count_items xs
size (object ms) = count_members ms
size (string s) = length s
size _ = 0
