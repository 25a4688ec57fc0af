-- ===== src/Storage/Tests/Samples.antt =====
-- The snapshot and the summary of the tests (src/storage/serialization.cpp).
use contextsnap.Base.{
  Bytes, [], arith, bytes_eq, codes, false, if◌then◌else◌, none, refl, some, true, ◌∷◌, ◌≡◌,
}
use contextsnap.Base.Int.{negsuc, pos, ℤ}
use contextsnap.Base.Decimal.{int_string}
use contextsnap.Base.Double.{bits}
use contextsnap.Errors.{Result, value}
use contextsnap.Types.{
  MonitorInfo, PlatformKind, Rect, SessionType, Snapshot, TabInfo, WindowInfo, firefox, maximized,
}
use contextsnap.Ulid.{is_valid_ulid}
use contextsnap.Geometry.{empty}
use contextsnap.Storage.Reports.{SnapshotSummary}
use contextsnap.Storage.RoundTrip.Parts.{RectFits, TabFits}
use contextsnap.Storage.RoundTrip.Windows.{MonitorFits, WindowFits}
use contextsnap.Storage.RoundTrip.Snapshots.{SnapshotFits}
use contextsnap.Json.RoundTrip.Doubles.{IsReadable}
use contextsnap.Storage.Tests.Library.{half-IsReadable, one-IsReadable, two_doubles}

abbrev pub wide : Rect
wide = record { x = pos 0; y = negsuc 9; width = pos 800; height = pos 600 }

abbrev pub a_tab : TabInfo
a_tab = record {
  id = codes "t";
  index = pos 0;
  url = codes "https://example.org/";
  title = [];
  favicon_path = none;
  group_id = some (codes "g");
  group_title = none;
  cookie_store_id = none;
  opener_index = some (negsuc 0);
  scroll_y = pos 40;
  pinned = true;
  active = false;
  audible = false;
  muted = false;
  discarded = false;
  incognito = false;
  sanitized = true;
}

abbrev pub a_window : WindowInfo
a_window = record {
  id = codes "w";
  native_handle = 77;
  title = codes "T";
  window_class = [];
  frame = wide;
  client_area = wide;
  restored_frame = wide;
  state = maximized;
  z_order = negsuc 2;
  monitor_id = codes "m";
  workspace_id = none;
  workspace_name = some (codes "Main");
  opacity = bits 2;
  focused = true;
  always_on_top = false;
  minimizable = true;
  resizable = true;
  captured_geometry_reliable = true;
  process = record {
    pid = 4;
    executable_path = codes "/bin/x";
    command_line = codes "x" ∷ codes "-v" ∷ [];
    working_directory = [];
    app_id = [];
    user = [];
    single_instance = false;
    elevated = false;
  };
  browser = firefox;
  browser_profile = none;
  tabs = a_tab ∷ [];
}

abbrev pub a_monitor : MonitorInfo
a_monitor = record {
  id = codes "m";
  name = codes "DP-1";
  bounds = wide;
  work_area = wide;
  dpi = 96;
  scale_factor = bits 3;
  refresh_hz = 60;
  orientation = codes "landscape";
  primary = true;
  edid_hash = none;
}

abbrev pub a_snapshot : Snapshot
a_snapshot = record {
  metadata = record {
    id = codes "01HF7YAT00000000000000000Z";
    name = codes "n";
    description = [];
    tags = codes "work" ∷ [];
    created_at = pos 1700000000007;
    updated_at = pos 1700000000008;
    platform = PlatformKind.linux;
    session_type = SessionType.wayland;
    host_name = codes "h";
    os_version = [];
    app_version = codes "1.0";
    schema_version = 1;
    capture_duration_ms = 12;
    favorite = false;
    automatic = true;
  };
  monitors = a_monitor ∷ [];
  windows = a_window ∷ [];
  cursor = record { x = pos 5; y = pos 6; monitor_id = codes "m"; focused_window_id = none };
  active_workspace_id = some (codes "1");
}

pub wide_fits : RectFits wide
wide_fits = record {
  x_fits = omega arith;
  y_fits = omega arith;
  width_fits = omega arith;
  height_fits = omega arith;
}

pub a_tab_fits : TabFits a_tab
a_tab_fits = record {
  index_fits = omega arith;
  scroll_fits = omega arith;
  opener_fits = omega arith;
  favicon_proper = tt;
  group_proper = refl;
  group_title_proper = tt;
  cookie_store_proper = tt;
}

pub a_window_fits : WindowFits (IsReadable two_doubles) a_window
a_window_fits = record {
  handle_fits = omega arith;
  frame_fits = wide_fits;
  client_area_fits = wide_fits;
  restored_fits = wide_fits;
  restored_nonempty = unfold empty in refl;
  opacity_ok = one-IsReadable;
  z_order_fits = omega arith;
  workspace_proper = tt;
  workspace_name_proper = refl;
  pid_fits = omega arith;
  profile_proper = tt;
  tabs_fit = (a_tab_fits, tt);
}

pub a_monitor_fits : MonitorFits (IsReadable two_doubles) a_monitor
a_monitor_fits = record {
  bounds_fit = wide_fits;
  work_area_fits = wide_fits;
  work_area_nonempty = unfold empty in refl;
  dpi_fits = omega arith;
  scale_ok = half-IsReadable;
  refresh_fits = omega arith;
  edid_proper = tt;
}

pub a_snapshot_fits : SnapshotFits (IsReadable two_doubles) a_snapshot
a_snapshot_fits = record {
  metadata_fits = record {
    id_present = refl;
    id_valid = unfold is_valid_ulid in refl;
    schema_known = omega arith;
    duration_fits = omega arith;
  };
  monitors_fit = (a_monitor_fits, tt);
  windows_fit = (a_window_fits, tt);
  cursor_fits = record { x_fits = omega arith; y_fits = omega arith; focused_proper = tt };
  workspace_proper = refl;
}

abbrev pub print_time : ℤ → Bytes
print_time z = if bytes_eq (int_string z) (codes "1700000000007") then codes "7" else codes "8"

abbrev pub read_time : Bytes → Result ℤ
read_time s =
    if bytes_eq s (codes "7") then value (pos 1700000000007) else value (pos 1700000000008)

pub first_time : read_time (print_time (pos 1700000000007)) ≡ value (pos 1700000000007)
unfolding int_string
first_time = refl

pub second_time : read_time (print_time (pos 1700000000008)) ≡ value (pos 1700000000008)
unfolding int_string
second_time = refl

abbrev pub a_summary : SnapshotSummary
a_summary = record {
  id = codes "01HF7YAT00000000000000000Z";
  name = codes "n";
  tags = codes "work" ∷ codes "home" ∷ [];
  created_at = pos 1700000000007;
  window_count = 3;
  tab_count = 4000000000;
  monitor_count = 1;
  favorite = true;
  automatic = false;
}
