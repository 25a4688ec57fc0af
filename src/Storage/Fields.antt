-- ===== src/Storage/Fields.antt =====
-- src/storage/serialization.cpp: the helpers that write and read one field.
use contextsnap.Base.{
  Bool, Bytes, List, Option, [], bytes_eq, codes, if◌then◌else◌, is_empty, none, some, ℕ, ◌%◌, ◌-◌,
  ◌^◌, ◌∷◌,
}
use contextsnap.Base.Int.{negsuc, pos, to_int32, ℤ}
use contextsnap.Errors.{Result, value, ◌>>=◌}
use contextsnap.Types.{PlatformKind, Rect, SessionType}
use contextsnap.Types.Names.{platform_string, session_string}
use contextsnap.Json.{
  DoubleText, Items, Members, Value, array, as_bool, as_int, as_string, find, int, is_object, item,
  member, no_items, no_members, null, object, string,
}
use contextsnap.Ipc.Message.{or_default}

unfoldable pub rect_to_json : Rect → Value
rect_to_json r = object (
    member (codes "x") (int r.x) (
      member (codes "y") (int r.y)
        (member (codes "width") (int r.width) (member (codes "height") (int r.height) no_members))))

abbrev pub zero_frame : Rect
zero_frame = record { x = pos 0; y = pos 0; width = pos 0; height = pos 0 }

-- The arrays of a list.
unfoldable pub items_of {ℓ} : {A : Type ℓ} → (A → Value) → List A → Items
items_of f [] = no_items
items_of f (a ∷ as') = item (f a) (items_of f as')

unfoldable pub strings_to_json : List Bytes → Value
unfolding items_of
strings_to_json values = array (items_of (λ s. string s) values)

unfoldable pub strings_of : Items → List Bytes
strings_of no_items = []
strings_of (item v xs) = as_string v [] ∷ strings_of xs

unfoldable pub strings_from_json : Option Value → List Bytes
unfolding strings_of as_string
strings_from_json (some (array xs)) = strings_of xs
strings_from_json _ = []

unfoldable pub put_optional : Bytes → Option Bytes → Members → Members
put_optional key none rest = rest
put_optional key (some s) rest = member key (string s) rest

-- A number that may be missing, of the field `opener_index`.
unfoldable pub put_optional_int : Bytes → Option ℤ → Members → Members
put_optional_int key none rest = rest
put_optional_int key (some z) rest = member key (int z) rest

abbrev pub nonempty : Bytes → Option Bytes
nonempty s = if is_empty s then none else some s

unfoldable pub optional_of : Option Value → Option Bytes
optional_of none = none
optional_of (some null) = none
optional_of (some v) = nonempty (as_string v [])

unfoldable pub optional_string : Value → Bytes → Option Bytes
unfolding optional_of as_string find
optional_string parent key = optional_of (find parent key)

unfoldable pub read_bool : Value → Bytes → Bool → Bool
unfolding find as_bool
read_bool parent key fallback = or_default (find parent key) fallback λ v. as_bool v fallback

unfoldable pub read_string : Value → Bytes → Bytes
unfolding find as_string
read_string parent key = or_default (find parent key) [] λ v. as_string v []

-- `static_cast<std::uint32_t>` of an `int64_t`.
unfoldable pub uint32_of_int64 : ℤ → ℕ
uint32_of_int64 (pos n) = n % 2 ^ 32
uint32_of_int64 (negsuc n) = 2 ^ 32 - 1 - n % 2 ^ 32

module _ (fp : DoubleText) where
  unfoldable pub read_int : Value → Bytes → ℤ → ℤ
  unfolding find as_int
  read_int parent key fallback = or_default (find parent key) fallback λ v. as_int fp v fallback

  abbrev side : Value → Bytes → ℤ
  side v key = or_default (find v key) (pos 0) λ field. to_int32 (as_int fp field (pos 0))

  unfoldable pub rect_from_json : Option Value → Rect
  unfolding find as_int is_object
  rect_from_json none = zero_frame
  rect_from_json (some v) =
      if is_object v
      then record {
        x = side v (codes "x");
        y = side v (codes "y");
        width = side v (codes "width");
        height = side v (codes "height");
      }
      else zero_frame

abbrev named_platform : Bytes → List PlatformKind → PlatformKind
named_platform text [] = PlatformKind.unknown
named_platform text (k ∷ ks) =
    if bytes_eq (platform_string k) text then k else named_platform text ks

unfoldable pub platform_from_text : Bytes → PlatformKind
unfolding platform_string
platform_from_text text =
    named_platform text (PlatformKind.windows ∷ PlatformKind.mac_os ∷ PlatformKind.linux ∷ [])

abbrev named_session : Bytes → List SessionType → SessionType
named_session text [] = SessionType.unknown
named_session text (t ∷ ts) = if bytes_eq (session_string t) text then t else named_session text ts

unfoldable pub session_from_text : Bytes → SessionType
unfolding session_string
session_from_text text =
    named_session text
      (SessionType.win32 ∷ SessionType.quartz ∷ SessionType.x11 ∷ SessionType.wayland ∷ [])

-- The loop over an array whose elements can be refused.
unfoldable pub read_all {ℓ} : {A : Type ℓ} → (Value → Result A) → Items → Result (List A)
read_all read no_items = value []
read_all read (item v xs) = read v >>= λ a. read_all read xs >>= λ rest. value (a ∷ rest)
