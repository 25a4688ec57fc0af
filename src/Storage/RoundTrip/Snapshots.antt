-- ===== src/Storage/RoundTrip/Snapshots.antt =====
-- Whole snapshots are read back (src/storage/serialization.cpp).
use contextsnap.Base.{
  Bytes, List, [], arith, false, is_empty, refl, some, true, ◌<◌, ◌^◌, ◌∷◌, ◌≡◌, ◌≤◌, codes, ℕ, ltb,
}
use contextsnap.Base.Int.{ℤ}
use contextsnap.Base.Double.{Double}
use contextsnap.Errors.{Result, value, value_or}
use contextsnap.Types.{
  CursorState, MonitorInfo, PlatformKind, SessionType, Snapshot, SnapshotMetadata,
}
use contextsnap.Types.Names.{platform_string, session_string}
use contextsnap.Ulid.{is_valid_ulid}
use contextsnap.Json.{DoubleText, as_int, as_string, is_object, array, find, Value}
use contextsnap.Storage.Fields.{
  items_of, optional_string, platform_from_text, read_bool, read_int, read_string,
  session_from_text,
}
use contextsnap.Storage.ToJson.{
  cursor_to_json, metadata_to_json, monitor_to_json, snapshot_to_json, window_to_json,
}
use contextsnap.Storage.FromJson.{
  cursor_from_json, metadata_of, monitors_of, schema_version, id_from_json, metadata_from_json,
  monitors_from_json, snapshot_from_json, window_from_json, windows_from_json, checked_metadata,
}
use contextsnap.Json.RoundTrip.Reread.{map_doubles}
use contextsnap.Storage.RoundTrip.Doubles.{doubles_mapped}
use contextsnap.Storage.RoundTrip.Parts.{
  IsInt32, IsProper, lookups, optional_of-text_value, to_int32-eq_self, text_value,
}
use contextsnap.Storage.RoundTrip.Windows.{
  Every, MonitorFits, WindowFits, monitor_from_json-monitor_to_json,
  strings_from_json-strings_to_json, uint32_of_int64-eq_self, read_all-items_of,
  window_from_json-window_to_json, Stands,
}

pub platform_from_text-platform_string :
    (k : PlatformKind) → platform_from_text (platform_string k) ≡ k
unfolding platform_from_text platform_string
platform_from_text-platform_string PlatformKind.unknown = refl
platform_from_text-platform_string _ = refl

pub session_from_text-session_string : (t : SessionType) → session_from_text (session_string t) ≡ t
unfolding session_from_text session_string
session_from_text-session_string SessionType.unknown = refl
session_from_text-session_string _ = refl

pub monitors_of-items_of :
    (fp : DoubleText) (one : Double) (ok : Double → Type 0) (f : Double → Value)
    → Stands fp ok f
    → (ms : List MonitorInfo) → Every (MonitorFits ok) ms
    → monitors_of fp one (items_of (λ m. map_doubles f (monitor_to_json m)) ms) ≡ ms
unfolding monitors_of items_of
monitors_of-items_of fp one ok f stands [] h = refl
monitors_of-items_of fp one ok f stands (m ∷ ms) (h, hs) =
    rw
      (
        monitor_from_json-monitor_to_json fp one ok f stands m h,
        monitors_of-items_of fp one ok f stands ms hs,
      )
      refl

pub record CursorFits (c : CursorState) : Type 0 where
  pub x_fits : IsInt32 c.x
  pub y_fits : IsInt32 c.y
  pub focused_proper : IsProper c.focused_window_id

cursor_from_json-cursor_to_json :
    (fp : DoubleText) (one : Double) (format_time : ℤ → Bytes) (c : CursorState)
    → CursorFits c
    → cursor_from_json fp one (some (cursor_to_json format_time c)) ≡ c
unfolding cursor_to_json cursor_from_json read_string read_int optional_string as_int is_object
cursor_from_json-cursor_to_json fp one format_time c h = simp (
  lookups,
  optional_of-text_value c.focused_window_id h.focused_proper,
  to_int32-eq_self c.x h.x_fits,
  to_int32-eq_self c.y h.y_fits,
)

-- The id is a ULID, the schema is one this build reads, and the counts fit their types.
pub record MetadataFits (m : SnapshotMetadata) : Type 0 where
  pub id_present : is_empty m.id ≡ false
  pub id_valid : is_valid_ulid m.id ≡ true
  pub schema_known : m.schema_version ≤ schema_version
  pub duration_fits : m.capture_duration_ms < 2 ^ 32

pub schema_fits : (n : ℕ) → n ≤ schema_version → n < 2 ^ 32
schema_fits n h = omega arith

not_newer : (n : ℕ) → n ≤ schema_version → ltb schema_version n ≡ false
not_newer n h = ground arith

pub record SnapshotFits (ok : Double → Type 0) (s : Snapshot) : Type 0 where
  pub metadata_fits : MetadataFits s.metadata
  pub monitors_fit : Every (MonitorFits ok) s.monitors
  pub windows_fit : Every (WindowFits ok) s.windows
  pub cursor_fits : CursorFits s.cursor
  pub workspace_proper : IsProper s.active_workspace_id

module _ (fp : DoubleText) (one : Double) (format_time : ℤ → Bytes) (parse_time : Bytes → Result ℤ)
    (fresh_id : Bytes) where
  checked_metadata-known :
      (read m : SnapshotMetadata)
      → read ≡ m
      → m.schema_version ≤ schema_version
      → checked_metadata fp one parse_time fresh_id read ≡ value m
  checked_metadata-known read m same h = rw (same, not_newer m.schema_version h) refl

  metadata_of-metadata_to_json :
      (m : SnapshotMetadata)
      → MetadataFits m
      → parse_time (format_time m.created_at) ≡ value m.created_at
      → parse_time (format_time m.updated_at) ≡ value m.updated_at
      → metadata_of fp one parse_time fresh_id (metadata_to_json format_time m) m.id ≡ m
  unfolding metadata_to_json read_string read_bool read_int as_string as_int value_or
  metadata_of-metadata_to_json m h created updated = simp (
    created,
    updated,
    strings_from_json-strings_to_json m.tags,
    platform_from_text-platform_string,
    session_from_text-session_string,
    uint32_of_int64-eq_self m.capture_duration_ms h.duration_fits,
    uint32_of_int64-eq_self m.schema_version (schema_fits m.schema_version h.schema_known),
  )

  is_object-metadata_to_json :
      (m : SnapshotMetadata) → is_object (metadata_to_json format_time m) ≡ true
  unfolding metadata_to_json is_object
  is_object-metadata_to_json m = refl

  read_id-metadata_to_json :
      (m : SnapshotMetadata) → read_string (metadata_to_json format_time m) (codes "id") ≡ m.id
  unfolding metadata_to_json read_string as_string
  read_id-metadata_to_json m = refl

  metadata_from_json-metadata_to_json :
      (m : SnapshotMetadata)
      → MetadataFits m
      → parse_time (format_time m.created_at) ≡ value m.created_at
      → parse_time (format_time m.updated_at) ≡ value m.updated_at
      → metadata_from_json fp one parse_time fresh_id (some (metadata_to_json format_time m))
        ≡ value m
  unfolding metadata_from_json id_from_json
  metadata_from_json-metadata_to_json m h created updated =
      rw (is_object-metadata_to_json m, read_id-metadata_to_json m, h.id_present, h.id_valid)
        (checked_metadata-known
          (metadata_of fp one parse_time fresh_id (metadata_to_json format_time m) m.id) m
          (metadata_of-metadata_to_json m h created updated) h.schema_known)

  module _ (ok : Double → Type 0) (f : Double → Value) (stands : Stands fp ok f) where
    -- The fields of the object that `to_json` makes of a snapshot.
    find-snapshot_to_json :
        (s : Snapshot)
        → (find (map_doubles f (snapshot_to_json format_time s)) (codes "metadata")
            ≡ some (metadata_to_json format_time s.metadata))
          × (find (map_doubles f (snapshot_to_json format_time s)) (codes "monitors")
              ≡ some (array (items_of (λ m. map_doubles f (monitor_to_json m)) s.monitors)))
          × (find (map_doubles f (snapshot_to_json format_time s)) (codes "windows")
              ≡ some (array (items_of (λ w. map_doubles f (window_to_json w)) s.windows)))
          × (find (map_doubles f (snapshot_to_json format_time s)) (codes "cursor")
              ≡ some (cursor_to_json format_time s.cursor))
          × (find (map_doubles f (snapshot_to_json format_time s)) (codes "active_workspace_id")
              ≡ text_value s.active_workspace_id)
    unfolding map_doubles snapshot_to_json find
    find-snapshot_to_json s = (
      simp (doubles_mapped),
      simp (doubles_mapped),
      simp (doubles_mapped),
      simp (doubles_mapped),
      simp (lookups, doubles_mapped),
    )

    is_object-snapshot_to_json :
        (s : Snapshot) → is_object (map_doubles f (snapshot_to_json format_time s)) ≡ true
    unfolding map_doubles snapshot_to_json is_object
    is_object-snapshot_to_json s = refl

    pub snapshot_from_json-map_doubles :
        (s : Snapshot)
        → SnapshotFits ok s
        → parse_time (format_time s.metadata.created_at) ≡ value s.metadata.created_at
        → parse_time (format_time s.metadata.updated_at) ≡ value s.metadata.updated_at
        → snapshot_from_json fp one parse_time fresh_id
            (map_doubles f (snapshot_to_json format_time s))
          ≡ value s
    unfolding snapshot_from_json monitors_from_json windows_from_json optional_string
    snapshot_from_json-map_doubles s h created updated =
        let (metadata, monitors, windows, cursor, workspace) = find-snapshot_to_json s in
        rw
          (
            is_object-snapshot_to_json s,
            metadata,
            monitors,
            windows,
            cursor,
            workspace,
            metadata_from_json-metadata_to_json s.metadata h.metadata_fits created updated,
            read_all-items_of (λ w. map_doubles f (window_to_json w)) (window_from_json fp one)
                (WindowFits ok) (window_from_json-window_to_json fp one ok f stands) s.windows
                h.windows_fit,
            monitors_of-items_of fp one ok f stands s.monitors h.monitors_fit,
            cursor_from_json-cursor_to_json fp one format_time s.cursor h.cursor_fits,
            optional_of-text_value s.active_workspace_id h.workspace_proper,
          )
          refl
