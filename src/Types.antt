-- ===== src/Types.antt =====
-- include/contextsnap/core/types.hpp: the snapshot domain model. A string is a list of bytes, an
-- `int32_t` or a time an integer, an unsigned integer a natural number, a double its bit pattern;
-- durations are counts of milliseconds. `core::Rect` is in Geometry.
pub mod Names
pub mod Lookup
mod Tests
use contextsnap.Base.{
  ℕ, Bytes, Bool, Option, List, if◌then◌else◌, ◌+◌, length, none, some, [], ◌∷◌, bytes_eq,
}
use contextsnap.Base.Int.{ℤ}
use contextsnap.Base.Double.{Double}

pub record Rect : Type 0 where
  pub x : ℤ
  pub y : ℤ
  pub width : ℤ
  pub height : ℤ

pub data WindowState : Type 0 where
  normal minimized maximized fullscreen hidden : WindowState

pub data PlatformKind : Type 0 where
  unknown windows mac_os linux : PlatformKind

pub data SessionType : Type 0 where
  unknown win32 quartz x11 wayland : SessionType

pub data BrowserKind : Type 0 where
  no_browser chrome chromium edge brave vivaldi opera firefox libre_wolf safari other : BrowserKind

pub record MonitorInfo : Type 0 where
  pub id : Bytes
  pub name : Bytes
  pub bounds : Rect
  pub work_area : Rect
  pub dpi : ℕ
  pub scale_factor : Double
  pub refresh_hz : ℕ
  pub orientation : Bytes
  pub primary : Bool
  pub edid_hash : Option Bytes

pub record ProcessInfo : Type 0 where
  pub pid : ℕ
  pub executable_path : Bytes
  pub command_line : List Bytes
  pub working_directory : Bytes
  pub app_id : Bytes
  pub user : Bytes
  pub single_instance : Bool
  pub elevated : Bool

pub record TabInfo : Type 0 where
  pub id : Bytes
  pub index : ℤ
  pub url : Bytes
  pub title : Bytes
  pub favicon_path : Option Bytes
  pub group_id : Option Bytes
  pub group_title : Option Bytes
  pub cookie_store_id : Option Bytes
  pub opener_index : Option ℤ
  pub scroll_y : ℤ
  pub pinned : Bool
  pub active : Bool
  pub audible : Bool
  pub muted : Bool
  pub discarded : Bool
  pub incognito : Bool
  pub sanitized : Bool

pub record WindowInfo : Type 0 where
  pub id : Bytes
  pub native_handle : ℕ
  pub title : Bytes
  pub window_class : Bytes
  pub frame : Rect
  pub client_area : Rect
  pub restored_frame : Rect
  pub state : WindowState
  pub z_order : ℤ
  pub monitor_id : Bytes
  pub workspace_id : Option Bytes
  pub workspace_name : Option Bytes
  pub opacity : Double
  pub focused : Bool
  pub always_on_top : Bool
  pub minimizable : Bool
  pub resizable : Bool
  pub captured_geometry_reliable : Bool
  pub process : ProcessInfo
  pub browser : BrowserKind
  pub browser_profile : Option Bytes
  pub tabs : List TabInfo

pub record CursorState : Type 0 where
  pub x : ℤ
  pub y : ℤ
  pub monitor_id : Bytes
  pub focused_window_id : Option Bytes

pub record SnapshotMetadata : Type 0 where
  pub id : Bytes
  pub name : Bytes
  pub description : Bytes
  pub tags : List Bytes
  pub created_at : ℤ
  pub updated_at : ℤ
  pub platform : PlatformKind
  pub session_type : SessionType
  pub host_name : Bytes
  pub os_version : Bytes
  pub app_version : Bytes
  pub schema_version : ℕ
  pub capture_duration_ms : ℕ
  pub favorite : Bool
  pub automatic : Bool

pub record Snapshot : Type 0 where
  pub metadata : SnapshotMetadata
  pub monitors : List MonitorInfo
  pub windows : List WindowInfo
  pub cursor : CursorState
  pub active_workspace_id : Option Bytes

-- The loop of `Snapshot::tab_count`.
tabs_of : List WindowInfo → ℕ
tabs_of [] = 0
tabs_of (w ∷ ws) = length w.tabs + tabs_of ws

unfoldable pub tab_count : Snapshot → ℕ
unfolding tabs_of
tab_count s = tabs_of s.windows

unfoldable pub find_window_in : List WindowInfo → Bytes → Option WindowInfo
find_window_in [] window_id = none
find_window_in (w ∷ ws) window_id =
    if bytes_eq w.id window_id then some w else find_window_in ws window_id

unfoldable pub find_monitor_in : List MonitorInfo → Bytes → Option MonitorInfo
find_monitor_in [] monitor_id = none
find_monitor_in (m ∷ ms) monitor_id =
    if bytes_eq m.id monitor_id then some m else find_monitor_in ms monitor_id

-- `Snapshot::find_window` and `Snapshot::find_monitor`; a null pointer is `none`.
unfoldable pub find_window : Snapshot → Bytes → Option WindowInfo
unfolding find_window_in
find_window s = find_window_in s.windows

unfoldable pub find_monitor : Snapshot → Bytes → Option MonitorInfo
unfolding find_monitor_in
find_monitor s = find_monitor_in s.monitors
