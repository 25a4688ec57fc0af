-- ===== src/Storage/RoundTrip/Parts.antt =====
-- Single fields, rectangles, tabs and monitors are read back (src/storage/serialization.cpp).
use contextsnap.Base.{
  Bytes, Option, ap, arith, bytes_eq, false, if◌then◌else◌, is_empty, none, refl, some, ◌<◌, ◌^◌,
  ◌≡◌,
}
use contextsnap.Base.Int.{negsuc, pos, to_int32, ℤ}
use contextsnap.Base.Double.{Double}
use contextsnap.Types.{Rect, TabInfo}
use contextsnap.Json.{DoubleText, Members, Value, as_int, as_string, find_member, int, string}
use contextsnap.Storage.Fields.{
  optional_of, optional_string, put_optional, put_optional_int, read_bool, read_int, read_string,
  rect_from_json, rect_to_json,
}
use contextsnap.Storage.ToJson.{tab_to_json}
use contextsnap.Storage.FromJson.{opener_of, tab_of}

-- The first of two lookups that finds something, and the value of a member that may be missing.
unfoldable pub or_else : Option Value → Option Value → Option Value
or_else none w = w
or_else (some v) w = some v

unfoldable pub text_value : Option Bytes → Option Value
text_value none = none
text_value (some s) = some (string s)

unfoldable pub int_value : Option ℤ → Option Value
int_value none = none
int_value (some z) = some (int z)

pub find-put_optional :
    (k key : Bytes) (o : Option Bytes) (ms : Members)
    → find_member k (put_optional key o ms)
      ≡ (if bytes_eq key k then or_else (text_value o) (find_member k ms) else find_member k ms)
unfolding find_member put_optional or_else text_value
find-put_optional k key none ms = ground arith
find-put_optional k key (some s) ms = refl

pub find-put_optional_int :
    (k key : Bytes) (o : Option ℤ) (ms : Members)
    → find_member k (put_optional_int key o ms)
      ≡ (if bytes_eq key k then or_else (int_value o) (find_member k ms) else find_member k ms)
unfolding find_member put_optional_int or_else int_value
find-put_optional_int k key none ms = ground arith
find-put_optional_int k key (some z) ms = refl

pub or_else-none : (v : Option Value) → or_else v none ≡ v
unfolding or_else
or_else-none none = refl
or_else-none (some v) = refl

pub ruleset lookups = (find-put_optional, find-put_optional_int, or_else-none)

-- The range of an `int32_t`.
abbrev pub IsInt32 : ℤ → Type 0
IsInt32 (pos n) = n < 2 ^ 31
IsInt32 (negsuc n) = n < 2 ^ 31

pub to_int32-eq_self : (z : ℤ) → IsInt32 z → to_int32 z ≡ z
unfolding to_int32
to_int32-eq_self (pos n) h = ground arith
to_int32-eq_self (negsuc n) h = ground arith

pub record RectFits (r : Rect) : Type 0 where
  pub x_fits : IsInt32 r.x
  pub y_fits : IsInt32 r.y
  pub width_fits : IsInt32 r.width
  pub height_fits : IsInt32 r.height

pub rect_from_json-rect_to_json :
    (fp : DoubleText) (r : Rect) → RectFits r → rect_from_json fp (some (rect_to_json r)) ≡ r
unfolding rect_from_json rect_to_json
rect_from_json-rect_to_json fp r h =
    rw
      (
        to_int32-eq_self r.x h.x_fits,
        to_int32-eq_self r.y h.y_fits,
        to_int32-eq_self r.width h.width_fits,
        to_int32-eq_self r.height h.height_fits,
      )
      refl

-- A text that is there is not empty: an empty one is read as none.
abbrev pub IsProper : Option Bytes → Type 0
IsProper none = Unit {0}
IsProper (some s) = is_empty s ≡ false

pub optional_of-text_value : (o : Option Bytes) → IsProper o → optional_of (text_value o) ≡ o
unfolding optional_of as_string text_value
optional_of-text_value none h = refl
optional_of-text_value (some s) h = rw h refl

abbrev pub OpenerFits : Option ℤ → Type 0
OpenerFits none = Unit {0}
OpenerFits (some z) = IsInt32 z

opener_of-int_value :
    (fp : DoubleText) (one : Double) (o : Option ℤ)
    → OpenerFits o
    → opener_of fp one (int_value o) ≡ o
unfolding int_value as_int
opener_of-int_value fp one none h = refl
opener_of-int_value fp one (some z) h = ap (λ n. some n) (to_int32-eq_self z h)

pub record TabFits (t : TabInfo) : Type 0 where
  pub index_fits : IsInt32 t.index
  pub scroll_fits : IsInt32 t.scroll_y
  pub opener_fits : OpenerFits t.opener_index
  pub favicon_proper : IsProper t.favicon_path
  pub group_proper : IsProper t.group_id
  pub group_title_proper : IsProper t.group_title
  pub cookie_store_proper : IsProper t.cookie_store_id

pub tab_of-tab_to_json :
    (fp : DoubleText) (one : Double) (t : TabInfo) → TabFits t → tab_of fp one (tab_to_json t) ≡ t
unfolding tab_to_json read_string read_bool read_int optional_string
tab_of-tab_to_json fp one t h = simp (
  lookups,
  optional_of-text_value t.favicon_path h.favicon_proper,
  optional_of-text_value t.group_id h.group_proper,
  optional_of-text_value t.group_title h.group_title_proper,
  optional_of-text_value t.cookie_store_id h.cookie_store_proper,
  opener_of-int_value fp one t.opener_index h.opener_fits,
  to_int32-eq_self t.index h.index_fits,
  to_int32-eq_self t.scroll_y h.scroll_fits,
)
