-- ===== src/Storage/RoundTrip/Windows.antt =====
-- Monitors, processes and windows are read back (src/storage/serialization.cpp).
use contextsnap.Base.{
  Bytes, List, [], ap, arith, false, refl, some, ℕ, ◌<◌, ◌^◌, ◌∷◌, ◌≡◌, codes, true,
}
use contextsnap.Base.Int.{pos, uint64-int64}
use contextsnap.Base.Double.{Double}
use contextsnap.Types.{MonitorInfo, ProcessInfo, Rect, TabInfo, WindowInfo}
use contextsnap.Geometry.{empty}
use contextsnap.Json.{
  DoubleText, as_double, as_int, as_string, string, Value, array, is_object, find,
}
use contextsnap.Storage.Fields.{
  items_of, optional_string, read_bool, read_int, read_string, strings_from_json, strings_of,
  strings_to_json, uint32_of_int64, read_all,
}
use contextsnap.Storage.ToJson.{monitor_to_json, process_to_json, tab_to_json, window_to_json}
use contextsnap.Storage.FromJson.{
  frame_or, monitor_from_json, process_from_json, tab_from_json, tabs_from_json, window_from_json,
  window_of,
}
use contextsnap.Json.RoundTrip.Reread.{map_doubles}
use contextsnap.Storage.RoundTrip.Doubles.{doubles_mapped}
use contextsnap.Storage.RoundTrip.Parts.{
  IsProper, RectFits, lookups, optional_of-text_value, rect_from_json-rect_to_json, IsInt32,
  TabFits, tab_of-tab_to_json, to_int32-eq_self,
}
use contextsnap.Errors.{Result, value}
use contextsnap.Types.Names.{
  browser_kind_from_string-browser_string, window_state_from_string-window_state_string,
}

pub strings_of-items_of :
    (values : List Bytes) → strings_of (items_of (λ s. string s) values) ≡ values
unfolding strings_of items_of as_string
strings_of-items_of [] = refl
strings_of-items_of (s ∷ rest) = ap (λ l. s ∷ l) (strings_of-items_of rest)

pub strings_from_json-strings_to_json :
    (values : List Bytes) → strings_from_json (some (strings_to_json values)) ≡ values
unfolding strings_from_json strings_to_json
strings_from_json-strings_to_json values = strings_of-items_of values

pub uint32_of_int64-eq_self : (n : ℕ) → n < 2 ^ 32 → uint32_of_int64 (pos n) ≡ n
unfolding uint32_of_int64
uint32_of_int64-eq_self n h = ground arith

pub frame_or-eq_self : (r s : Rect) → empty r ≡ false → frame_or r s ≡ r
frame_or-eq_self r s h = rw h refl

-- What a double is written as, where `ok` holds of it, stands for it.
abbrev pub Stands : DoubleText → (Double → Type 0) → (Double → Value) → Type 0
Stands fp ok f = (d fallback : Double) → ok d → as_double fp (f d) fallback ≡ d

pub record MonitorFits (ok : Double → Type 0) (m : MonitorInfo) : Type 0 where
  pub bounds_fit : RectFits m.bounds
  pub work_area_fits : RectFits m.work_area
  pub work_area_nonempty : empty m.work_area ≡ false
  pub dpi_fits : m.dpi < 2 ^ 32
  pub scale_ok : ok m.scale_factor
  pub refresh_fits : m.refresh_hz < 2 ^ 32
  pub edid_proper : IsProper m.edid_hash

pub monitor_from_json-monitor_to_json :
    (fp : DoubleText) (one : Double) (ok : Double → Type 0) (f : Double → Value)
    → Stands fp ok f
    → (m : MonitorInfo) → MonitorFits ok m
    → monitor_from_json fp one (map_doubles f (monitor_to_json m)) ≡ m
unfolding map_doubles monitor_to_json monitor_from_json read_string read_bool read_int
    optional_string as_int
monitor_from_json-monitor_to_json fp one ok f stands m h = simp (
  lookups,
  doubles_mapped,
  stands m.scale_factor one h.scale_ok,
  optional_of-text_value m.edid_hash h.edid_proper,
  rect_from_json-rect_to_json fp m.bounds h.bounds_fit,
  rect_from_json-rect_to_json fp m.work_area h.work_area_fits,
  frame_or-eq_self m.work_area m.bounds h.work_area_nonempty,
  uint32_of_int64-eq_self m.dpi h.dpi_fits,
  uint32_of_int64-eq_self m.refresh_hz h.refresh_fits,
)

pub process_from_json-process_to_json :
    (fp : DoubleText) (one : Double) (p : ProcessInfo)
    → p.pid < 2 ^ 64
    → process_from_json fp one (some (process_to_json p)) ≡ p
unfolding process_to_json process_from_json read_string read_bool read_int as_int is_object
process_from_json-process_to_json fp one p h =
    simp (strings_from_json-strings_to_json p.command_line, uint64-int64 p.pid h)

-- A property of every element.
abbrev pub Every {ℓ ℓ'} : {A : Type ℓ} → (A → Type ℓ') → List A → Type ℓ'
Every P [] = Unit
Every P (a ∷ as') = P a × Every P as'

pub read_all-items_of {ℓ} :
    {A : Type ℓ}
    → (f : A → Value) (read : Value → Result A) (P : A → Type 0)
    → ((a : A) → P a → read (f a) ≡ value a)
    → (as' : List A) → Every P as'
    → read_all read (items_of f as') ≡ value as'
unfolding read_all items_of
read_all-items_of f read P back [] h = refl
read_all-items_of f read P back (a ∷ as') (h, hs) =
    rw (back a h, read_all-items_of f read P back as' hs) refl

tab_from_json-tab_to_json :
    (fp : DoubleText) (one : Double) (t : TabInfo)
    → TabFits t
    → tab_from_json fp one (tab_to_json t) ≡ value t
unfolding tab_from_json tab_to_json is_object
tab_from_json-tab_to_json fp one t h = ap (λ u. value u) (tab_of-tab_to_json fp one t h)

pub tabs_from_json-items_of :
    (fp : DoubleText) (one : Double) (tabs : List TabInfo)
    → Every TabFits tabs
    → tabs_from_json fp one (some (array (items_of tab_to_json tabs))) ≡ value tabs
unfolding tabs_from_json
tabs_from_json-items_of fp one tabs h =
    read_all-items_of tab_to_json (tab_from_json fp one) TabFits (tab_from_json-tab_to_json fp one)
      tabs h

pub record WindowFits (ok : Double → Type 0) (w : WindowInfo) : Type 0 where
  pub handle_fits : w.native_handle < 2 ^ 64
  pub frame_fits : RectFits w.frame
  pub client_area_fits : RectFits w.client_area
  pub restored_fits : RectFits w.restored_frame
  pub restored_nonempty : empty w.restored_frame ≡ false
  pub opacity_ok : ok w.opacity
  pub z_order_fits : IsInt32 w.z_order
  pub workspace_proper : IsProper w.workspace_id
  pub workspace_name_proper : IsProper w.workspace_name
  pub pid_fits : w.process.pid < 2 ^ 64
  pub profile_proper : IsProper w.browser_profile
  pub tabs_fit : Every TabFits w.tabs

window_of-window_to_json :
    (fp : DoubleText) (one : Double) (ok : Double → Type 0) (f : Double → Value)
    → Stands fp ok f
    → (w : WindowInfo) → WindowFits ok w
    → window_of fp one (map_doubles f (window_to_json w)) w.tabs ≡ w
unfolding map_doubles window_to_json read_string read_bool read_int optional_string as_int as_string
window_of-window_to_json fp one ok f stands w h = simp (
  lookups,
  doubles_mapped,
  stands w.opacity one h.opacity_ok,
  optional_of-text_value w.workspace_id h.workspace_proper,
  optional_of-text_value w.workspace_name h.workspace_name_proper,
  optional_of-text_value w.browser_profile h.profile_proper,
  rect_from_json-rect_to_json fp w.frame h.frame_fits,
  rect_from_json-rect_to_json fp w.client_area h.client_area_fits,
  rect_from_json-rect_to_json fp w.restored_frame h.restored_fits,
  frame_or-eq_self w.restored_frame w.frame h.restored_nonempty,
  uint64-int64 w.native_handle h.handle_fits,
  to_int32-eq_self w.z_order h.z_order_fits,
  process_from_json-process_to_json fp one w.process h.pid_fits,
  window_state_from_string-window_state_string,
  browser_kind_from_string-browser_string,
)

find_tabs-window_to_json :
    (f : Double → Value) (w : WindowInfo)
    → find (map_doubles f (window_to_json w)) (codes "tabs")
      ≡ some (array (items_of tab_to_json w.tabs))
unfolding map_doubles window_to_json find
find_tabs-window_to_json f w = simp (lookups, doubles_mapped)

is_object-window_to_json :
    (f : Double → Value) (w : WindowInfo) → is_object (map_doubles f (window_to_json w)) ≡ true
unfolding map_doubles window_to_json is_object
is_object-window_to_json f w = refl

pub window_from_json-window_to_json :
    (fp : DoubleText) (one : Double) (ok : Double → Type 0) (f : Double → Value)
    → Stands fp ok f
    → (w : WindowInfo) → WindowFits ok w
    → window_from_json fp one (map_doubles f (window_to_json w)) ≡ value w
unfolding window_from_json
window_from_json-window_to_json fp one ok f stands w h =
    rw
      (
        is_object-window_to_json f w,
        find_tabs-window_to_json f w,
        tabs_from_json-items_of fp one w.tabs h.tabs_fit,
      )
      (ap (λ u. value u) (window_of-window_to_json fp one ok f stands w h))
