-- ===== src/Storage/FromJson.antt =====
-- src/storage/serialization.cpp: tabs, monitors, windows and snapshots read from JSON. The reading
-- of a time and the id that is made for a snapshot without one are parameters.
use contextsnap.Base.{
  Bytes, List, Option, [], codes, false, if◌then◌else◌, is_empty, ltb, none, some, true, ℕ, ◌∷◌,
}
use contextsnap.Base.Int.{negsuc, pos, to_int32, uint64_of_int64, ℤ}
use contextsnap.Base.Double.{Double}
use contextsnap.Errors.{Result, error, invalid, make_error, unsupported, value, value_or, ◌>>=◌}
use contextsnap.Types.{
  CursorState, MonitorInfo, ProcessInfo, Rect, Snapshot, SnapshotMetadata, TabInfo, WindowInfo,
}
use contextsnap.Types.Names.{browser_kind_from_string, window_state_from_string}
use contextsnap.Geometry.{empty}
use contextsnap.Ulid.{is_valid_ulid}
use contextsnap.Json.{
  DoubleText, Items, Value, array, as_double, as_int, find, is_object, item, no_items, null,
}
use contextsnap.Ipc.Message.{or_default}
use contextsnap.Storage.Fields.{
  optional_string, platform_from_text, read_all, read_bool, read_int, read_string, rect_from_json,
  session_from_text, strings_from_json, uint32_of_int64,
}

abbrev pub schema_version : ℕ
schema_version = 1

abbrev pub refused {ℓ} : {A : Type ℓ} → Bytes → Result A
refused what = error (invalid what (codes "storage.deserialize"))

-- A frame that is missing is replaced by another one.
abbrev pub frame_or : Rect → Rect → Rect
frame_or r substitute = if empty r then substitute else r

module _ (fp : DoubleText) (one : Double) where
  abbrev pub opener_of : Option Value → Option ℤ
  opener_of none = none
  opener_of (some null) = none
  opener_of (some v) = some (to_int32 (as_int fp v (negsuc 0)))

  abbrev pub tab_of : Value → TabInfo
  tab_of v = record {
    id = read_string v (codes "id");
    index = to_int32 (read_int fp v (codes "index") (pos 0));
    url = read_string v (codes "url");
    title = read_string v (codes "title");
    favicon_path = optional_string v (codes "favicon_path");
    group_id = optional_string v (codes "group_id");
    group_title = optional_string v (codes "group_title");
    cookie_store_id = optional_string v (codes "cookie_store_id");
    opener_index = opener_of (find v (codes "opener_index"));
    scroll_y = to_int32 (read_int fp v (codes "scroll_y") (pos 0));
    pinned = read_bool v (codes "pinned") false;
    active = read_bool v (codes "active") false;
    audible = read_bool v (codes "audible") false;
    muted = read_bool v (codes "muted") false;
    discarded = read_bool v (codes "discarded") false;
    incognito = read_bool v (codes "incognito") false;
    sanitized = read_bool v (codes "sanitized") false;
  }

  unfoldable pub tab_from_json : Value → Result TabInfo
  tab_from_json v =
      if is_object v then value (tab_of v) else refused (codes "tab must be an object")

  unfoldable pub monitor_from_json : Value → MonitorInfo
  monitor_from_json v =
      let bounds = rect_from_json fp (find v (codes "bounds")) in
      record {
        id = read_string v (codes "id");
        name = read_string v (codes "name");
        bounds = bounds;
        work_area = frame_or (rect_from_json fp (find v (codes "work_area"))) bounds;
        dpi = uint32_of_int64 (read_int fp v (codes "dpi") (pos 96));
        scale_factor = or_default (find v (codes "scale_factor")) one λ s. as_double fp s one;
        refresh_hz = uint32_of_int64 (read_int fp v (codes "refresh_hz") (pos 0));
        orientation = read_string v (codes "orientation");
        primary = read_bool v (codes "primary") false;
        edid_hash = optional_string v (codes "edid_hash");
      }

  abbrev pub no_process : ProcessInfo
  no_process = record {
    pid = 0;
    executable_path = [];
    command_line = [];
    working_directory = [];
    app_id = [];
    user = [];
    single_instance = false;
    elevated = false;
  }

  abbrev pub process_of : Value → ProcessInfo
  process_of v = record {
    pid = uint64_of_int64 (read_int fp v (codes "pid") (pos 0));
    executable_path = read_string v (codes "executable_path");
    command_line = strings_from_json (find v (codes "command_line"));
    working_directory = read_string v (codes "working_directory");
    app_id = read_string v (codes "app_id");
    user = read_string v (codes "user");
    single_instance = read_bool v (codes "single_instance") false;
    elevated = read_bool v (codes "elevated") false;
  }

  unfoldable pub process_from_json : Option Value → ProcessInfo
  process_from_json none = no_process
  process_from_json (some v) = if is_object v then process_of v else no_process

  unfoldable pub tabs_from_json : Option Value → Result (List TabInfo)
  tabs_from_json (some (array xs)) = read_all tab_from_json xs
  tabs_from_json _ = value []

  abbrev pub window_of : Value → List TabInfo → WindowInfo
  window_of v tabs =
      let frame = rect_from_json fp (find v (codes "frame")) in
      record {
        id = read_string v (codes "id");
        native_handle = uint64_of_int64 (read_int fp v (codes "native_handle") (pos 0));
        title = read_string v (codes "title");
        window_class = read_string v (codes "window_class");
        frame = frame;
        client_area = rect_from_json fp (find v (codes "client_area"));
        restored_frame = frame_or (rect_from_json fp (find v (codes "restored_frame"))) frame;
        state = window_state_from_string (read_string v (codes "state"));
        z_order = to_int32 (read_int fp v (codes "z_order") (pos 0));
        monitor_id = read_string v (codes "monitor_id");
        workspace_id = optional_string v (codes "workspace_id");
        workspace_name = optional_string v (codes "workspace_name");
        opacity = or_default (find v (codes "opacity")) one λ o. as_double fp o one;
        focused = read_bool v (codes "focused") false;
        always_on_top = read_bool v (codes "always_on_top") false;
        minimizable = read_bool v (codes "minimizable") true;
        resizable = read_bool v (codes "resizable") true;
        captured_geometry_reliable = read_bool v (codes "captured_geometry_reliable") true;
        process = process_from_json (find v (codes "process"));
        browser = browser_kind_from_string (read_string v (codes "browser"));
        browser_profile = optional_string v (codes "browser_profile");
        tabs = tabs;
      }

  unfoldable pub window_from_json : Value → Result WindowInfo
  window_from_json v =
      if is_object v
      then (tabs_from_json (find v (codes "tabs")) >>= λ tabs. value (window_of v tabs))
      else refused (codes "window must be an object")

  abbrev pub cursor_of : Option Value → CursorState
  cursor_of none = record { x = pos 0; y = pos 0; monitor_id = []; focused_window_id = none }
  cursor_of (some v) =
      if is_object v
      then record {
        x = to_int32 (read_int fp v (codes "x") (pos 0));
        y = to_int32 (read_int fp v (codes "y") (pos 0));
        monitor_id = read_string v (codes "monitor_id");
        focused_window_id = optional_string v (codes "focused_window_id");
      }
      else record { x = pos 0; y = pos 0; monitor_id = []; focused_window_id = none }

  unfoldable pub cursor_from_json : Option Value → CursorState
  cursor_from_json v = cursor_of v

  unfoldable pub monitors_of : Items → List MonitorInfo
  monitors_of no_items = []
  monitors_of (item v xs) = monitor_from_json v ∷ monitors_of xs

  unfoldable pub monitors_from_json : Option Value → List MonitorInfo
  unfolding monitors_of
  monitors_from_json (some (array xs)) = monitors_of xs
  monitors_from_json _ = []

  unfoldable pub windows_from_json : Option Value → Result (List WindowInfo)
  windows_from_json (some (array xs)) = read_all window_from_json xs
  windows_from_json _ = value []

  module _ (parse_time : Bytes → Result ℤ) (fresh_id : Bytes) where
    -- The id: a new one where it is empty, an error where it is no ULID.
    unfoldable pub id_from_json : Bytes → Result Bytes
    id_from_json id =
        if is_empty id
        then value fresh_id
        else if is_valid_ulid id
        then value id
        else refused (codes "snapshot id is not a ULID")

    -- A time that cannot be read stays at its default.
    abbrev pub time_of : Bytes → ℤ
    time_of text = value_or (parse_time text) (pos 0)

    abbrev pub metadata_of : Value → Bytes → SnapshotMetadata
    metadata_of v id = record {
      id = id;
      name = read_string v (codes "name");
      description = read_string v (codes "description");
      tags = strings_from_json (find v (codes "tags"));
      created_at = time_of (read_string v (codes "created_at"));
      updated_at = time_of (read_string v (codes "updated_at"));
      platform = platform_from_text (read_string v (codes "platform"));
      session_type = session_from_text (read_string v (codes "session_type"));
      host_name = read_string v (codes "host_name");
      os_version = read_string v (codes "os_version");
      app_version = read_string v (codes "app_version");
      schema_version = uint32_of_int64 (read_int fp v (codes "schema_version") (pos 1));
      capture_duration_ms = uint32_of_int64 (read_int fp v (codes "capture_duration_ms") (pos 0));
      favorite = read_bool v (codes "favorite") false;
      automatic = read_bool v (codes "automatic") false;
    }

    abbrev pub checked_metadata : SnapshotMetadata → Result SnapshotMetadata
    checked_metadata m =
        if ltb schema_version m.schema_version
        then error (
            make_error unsupported (codes "snapshot schema is newer than this build supports")
              (codes "storage.deserialize"))
        else value m

    unfoldable pub metadata_from_json : Option Value → Result SnapshotMetadata
    metadata_from_json none = refused (codes "snapshot is missing metadata")
    metadata_from_json (some v) =
        if is_object v
        then (id_from_json (read_string v (codes "id")) >>= λ id.
            checked_metadata (metadata_of v id))
        else refused (codes "snapshot is missing metadata")

    unfoldable pub snapshot_from_json : Value → Result Snapshot
    snapshot_from_json v =
        if is_object v
        then (metadata_from_json (find v (codes "metadata")) >>= λ metadata.
            windows_from_json (find v (codes "windows")) >>= λ windows. value (record {
              metadata = metadata;
              monitors = monitors_from_json (find v (codes "monitors"));
              windows = windows;
              cursor = cursor_from_json (find v (codes "cursor"));
              active_workspace_id = optional_string v (codes "active_workspace_id");
            }))
        else refused (codes "snapshot must be an object")
