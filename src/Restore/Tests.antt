-- ===== src/Restore/Tests.antt =====
-- Selectors, places and plans at concrete inputs, over a processor of whole numbers.
use contextsnap.Matching.Similarity.{text_or_empty}
use contextsnap.Privacy.Glob.{glob_match}
use contextsnap.Base.{
  Member, String, [], all, any, codes, false, none, refl, some, true, ℕ, ◌==◌, ◌∷◌, ◌≡◌, bytes_eq,
  starts_with, ◌||◌,
}
use contextsnap.Base.Int.{pos, ◌≤ℤ◌}
use contextsnap.Base.Double.{Fpu, bits}
use contextsnap.Base.WholeFpu.{whole_fpu}
use contextsnap.Errors.{value, value_or}
use contextsnap.Types.{
  BrowserKind, MonitorInfo, PlatformKind, Rect, SessionType, Snapshot, WindowInfo, WindowState,
}
use contextsnap.Geometry.Rects.{IsInside}
use contextsnap.Matching.Text.{normalize_app_id}
use contextsnap.Restore.Select.{
  app, parse_selector, selector, selector_matches, with_prefix, parse_selector-selector_matches,
  selected_by,
}
use contextsnap.Restore.Place.{
  best_live_match, best_live_match-eq-some, clamp_to_monitors, clamp_to_monitors-IsInside,
}
use contextsnap.Restore.Plan.{Capabilities, RestoreOptions, RestorePlan, plan_restore}
use contextsnap.Restore.Plan.Steps.{moves, respects, placements}
use contextsnap.Restore.Plan.Allowed.{plan_restore-moves}

bare : parse_selector (codes "code") ≡ value (selector app (codes "code"))
unfolding parse_selector with_prefix
bare = refl

abbrev box : ℕ → ℕ → ℕ → ℕ → Rect
box l t w h = record { x = pos l; y = pos t; width = pos w; height = pos h }

abbrev screen : MonitorInfo
screen = record {
  id = codes "m";
  name = codes "m";
  bounds = box 0 0 1920 1080;
  work_area = box 0 30 1920 1050;
  dpi = 96;
  scale_factor = bits 1;
  refresh_hz = 60;
  orientation = codes "landscape";
  primary = true;
  edid_hash = none;
}

clamp_to_monitors-IsInside_example :
    (m : MonitorInfo) × (Member m (screen ∷ []))
    × (IsInside (clamp_to_monitors (box 1800 900 400 3000) (screen ∷ [])) m.work_area)
    × ((clamp_to_monitors (box 1800 900 400 3000) (screen ∷ [])).width ≤ℤ pos 400)
    × ((clamp_to_monitors (box 1800 900 400 3000) (screen ∷ [])).height ≤ℤ pos 3000)
clamp_to_monitors-IsInside_example =
    clamp_to_monitors-IsInside (box 1800 900 400 3000) (screen ∷ []) refl

abbrev saved_window : String → String → ℕ → WindowInfo
saved_window program name handle = record {
  id = codes name;
  native_handle = handle;
  title = codes name;
  window_class = [];
  frame = box 0 0 8 6;
  client_area = box 0 0 8 6;
  restored_frame = box 0 0 8 6;
  state = WindowState.maximized;
  z_order = pos 0;
  monitor_id = codes "m";
  workspace_id = none;
  workspace_name = none;
  opacity = bits 1;
  focused = false;
  always_on_top = false;
  minimizable = true;
  resizable = true;
  captured_geometry_reliable = true;
  process = record {
    pid = 7;
    executable_path = [];
    command_line = [];
    working_directory = [];
    app_id = codes program;
    user = [];
    single_instance = false;
    elevated = false;
  };
  browser = BrowserKind.no_browser;
  browser_profile = none;
  tabs = [];
}

-- Scores at which the title counts as a whole.
abbrev generous_fpu : Fpu
generous_fpu = record whole_fpu { decimal = λ m k. bits m; le = λ a b. true; lt = λ a b. true }

found :
    best_live_match generous_fpu
      (saved_window "code" "main" 1)
      (saved_window "code" "main" 5 ∷ [])
      []
    ≡ some (saved_window "code" "main" 5)
unfolding best_live_match
found = refl

best_live_match-eq-some_example :
    (any (λ h. h == 5) [] ≡ false)
    × (normalize_app_id (codes "code") ≡ normalize_app_id (codes "code"))
best_live_match-eq-some_example =
    best_live_match-eq-some generous_fpu (saved_window "code" "main" 1)
      (saved_window "code" "main" 5 ∷ []) [] (saved_window "code" "main" 5) found

parse_selector-selector_matches_example :
    let pattern = codes "*.figma.com" in
    let w = saved_window "code" "main" 5 in
    (selected_by (parse_selector (codes "all")) w ≡ some true)
    × (selected_by (parse_selector (codes "*")) w ≡ some true)
    × (selected_by (parse_selector (codes "app:*.figma.com")) w
        ≡ some (glob_match pattern (normalize_app_id w.process.app_id)))
    × (selected_by (parse_selector (codes "window:*.figma.com")) w
        ≡ some (starts_with w.id pattern))
    × (selected_by (parse_selector (codes "tab:*.figma.com")) w
        ≡ some (any (λ t. glob_match pattern t.url || glob_match pattern t.title) w.tabs))
    × (selected_by (parse_selector (codes "monitor:*.figma.com")) w
        ≡ some (bytes_eq w.monitor_id pattern))
    × (selected_by (parse_selector (codes "workspace:*.figma.com")) w
        ≡ some (bytes_eq (text_or_empty w.workspace_id) pattern))
parse_selector-selector_matches_example =
    parse_selector-selector_matches (codes "*.figma.com") (saved_window "code" "main" 5) refl

abbrev caps : Capabilities
caps = record {
  enumerate_windows = true;
  window_geometry = true;
  set_window_geometry = true;
  set_window_state = false;
  z_order = true;
  focus_control = true;
  virtual_desktops = false;
  move_between_desktops = false;
  cursor_query = true;
  cursor_warp = false;
  process_command_line = true;
  process_working_directory = true;
  launch_processes = true;
  window_thumbnails = false;
  limitations = [];
}

abbrev options : RestoreOptions
options = record {
  selectors = selector app (codes "code") ∷ [];
  launch_missing_apps = true;
  restore_tabs = true;
  lazy_load_tabs = true;
  restore_cursor = true;
  restore_focus = true;
  restore_z_order = true;
  restore_workspaces = true;
  close_conflicting_windows = false;
  dry_run = false;
  app_launch_timeout = pos 8000;
  window_settle_timeout = pos 2500;
  max_parallel_launches = 4;
}

abbrev stored : Snapshot
stored = record {
  metadata = record {
    id = codes "s";
    name = [];
    description = [];
    tags = [];
    created_at = pos 0;
    updated_at = pos 0;
    platform = PlatformKind.linux;
    session_type = SessionType.x11;
    host_name = [];
    os_version = [];
    app_version = [];
    schema_version = 1;
    capture_duration_ms = 0;
    favorite = false;
    automatic = false;
  };
  monitors = screen ∷ [];
  windows = saved_window "code" "main" 1 ∷ saved_window "mail" "inbox" 2 ∷ [];
  cursor = record { x = pos 0; y = pos 0; monitor_id = codes "m"; focused_window_id = none };
  active_workspace_id = none;
}

-- One window is found; another fits no live window, and missing apps are not launched.
placed_test :
    placements generous_fpu caps
      (record options { selectors = []; launch_missing_apps = false })
      (saved_window "code" "main" 5 ∷ [])
      stored.windows
      []
    ≡ (codes "main", false) ∷ (codes "inbox", true) ∷ []
unfolding placements selector_matches best_live_match
placed_test = refl

plan_restore-moves_example :
    (plan : RestorePlan) × (plan_restore generous_fpu caps options PlatformKind.linux
        (value (screen ∷ []))
        (value (saved_window "code" "main" 5 ∷ []))
        (value stored)
      ≡ value plan)
    × (moves plan.steps
        ≡ placements generous_fpu caps options
            (saved_window "code" "main" 5 ∷ [])
            stored.windows
            [])
    × (all (respects caps) plan.steps ≡ true)
unfolding value_or
plan_restore-moves_example =
    plan_restore-moves generous_fpu caps options PlatformKind.linux (value (screen ∷ []))
      (value (saved_window "code" "main" 5 ∷ [])) stored
