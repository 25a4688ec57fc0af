-- ===== src/Storage/ToJson.antt =====
-- src/storage/serialization.cpp: `to_json` of tabs, monitors, windows and snapshots. The text of a
-- time is a parameter here; Storage/Timestamps has the code's.
use contextsnap.Base.{Bytes, codes}
use contextsnap.Base.Int.{int64_of_uint64, pos, ℤ}
use contextsnap.Types.{
  CursorState, MonitorInfo, ProcessInfo, Snapshot, SnapshotMetadata, TabInfo, WindowInfo,
}
use contextsnap.Types.Names.{browser_string, platform_string, session_string, window_state_string}
use contextsnap.Json.{Value, array, bool, double, int, member, no_members, object, string}
use contextsnap.Storage.Fields.{
  items_of, put_optional, put_optional_int, rect_to_json, strings_to_json,
}

unfoldable pub tab_to_json : TabInfo → Value
tab_to_json tab = object (
    member (codes "id") (string tab.id) (
      member (codes "index") (int tab.index) (
        member (codes "url") (string tab.url) (
          member (codes "title") (string tab.title) (
            put_optional (codes "favicon_path") tab.favicon_path (
              put_optional (codes "group_id") tab.group_id (
                put_optional (codes "group_title") tab.group_title (
                  put_optional (codes "cookie_store_id") tab.cookie_store_id (
                    put_optional_int (codes "opener_index") tab.opener_index (
                      member (codes "scroll_y") (int tab.scroll_y) (
                        member (codes "pinned") (bool tab.pinned) (
                          member (codes "active") (bool tab.active) (
                            member (codes "audible") (bool tab.audible) (
                              member (codes "muted") (bool tab.muted) (
                                member (codes "discarded") (bool tab.discarded) (
                                  member (codes "incognito") (bool tab.incognito) (
                                    member (codes "sanitized") (bool tab.sanitized)
                                      no_members)))))))))))))))))

unfoldable pub monitor_to_json : MonitorInfo → Value
monitor_to_json m = object (
    member (codes "id") (string m.id) (
      member (codes "name") (string m.name) (
        member (codes "bounds") (rect_to_json m.bounds) (
          member (codes "work_area") (rect_to_json m.work_area) (
            member (codes "dpi") (int (pos m.dpi)) (
              member (codes "scale_factor") (double m.scale_factor) (
                member (codes "refresh_hz") (int (pos m.refresh_hz)) (
                  member (codes "orientation") (string m.orientation) (
                    member (codes "primary") (bool m.primary)
                      (put_optional (codes "edid_hash") m.edid_hash no_members))))))))))

unfoldable pub process_to_json : ProcessInfo → Value
process_to_json p = object (
    member (codes "pid") (int (int64_of_uint64 p.pid)) (
      member (codes "executable_path") (string p.executable_path) (
        member (codes "command_line") (strings_to_json p.command_line) (
          member (codes "working_directory") (string p.working_directory) (
            member (codes "app_id") (string p.app_id) (
              member (codes "user") (string p.user) (
                member (codes "single_instance") (bool p.single_instance)
                  (member (codes "elevated") (bool p.elevated) no_members))))))))

unfoldable pub window_to_json : WindowInfo → Value
window_to_json w = object (
    member (codes "id") (string w.id) (
      member (codes "native_handle") (int (int64_of_uint64 w.native_handle)) (
        member (codes "title") (string w.title) (
          member (codes "window_class") (string w.window_class) (
            member (codes "frame") (rect_to_json w.frame) (
              member (codes "client_area") (rect_to_json w.client_area) (
                member (codes "restored_frame") (rect_to_json w.restored_frame) (
                  member (codes "state") (string (window_state_string w.state)) (
                    member (codes "z_order") (int w.z_order) (
                      member (codes "monitor_id") (string w.monitor_id) (
                        put_optional (codes "workspace_id") w.workspace_id (
                          put_optional (codes "workspace_name") w.workspace_name (
                            member (codes "opacity") (double w.opacity) (
                              member (codes "focused") (bool w.focused) (
                                member (codes "always_on_top") (bool w.always_on_top) (
                                  member (codes "minimizable") (bool w.minimizable) (
                                    member (codes "resizable") (bool w.resizable) (
                                      member (codes "captured_geometry_reliable")
                                        (bool w.captured_geometry_reliable)
                                        (member (codes "process") (process_to_json w.process) (
                                          member (codes "browser")
                                            (string (browser_string w.browser))
                                            (put_optional (codes "browser_profile")
                                              w.browser_profile
                                              (member (codes "tabs")
                                                (array (items_of tab_to_json w.tabs))
                                                no_members))))))))))))))))))))))

module _ (format_time : ℤ → Bytes) where
  unfoldable pub metadata_to_json : SnapshotMetadata → Value
  metadata_to_json m = object (
      member (codes "id") (string m.id) (
        member (codes "name") (string m.name) (
          member (codes "description") (string m.description) (
            member (codes "tags") (strings_to_json m.tags) (
              member (codes "created_at") (string (format_time m.created_at)) (
                member (codes "updated_at") (string (format_time m.updated_at)) (
                  member (codes "platform") (string (platform_string m.platform)) (
                    member (codes "session_type") (string (session_string m.session_type)) (
                      member (codes "host_name") (string m.host_name) (
                        member (codes "os_version") (string m.os_version) (
                          member (codes "app_version") (string m.app_version) (
                            member (codes "schema_version") (int (pos m.schema_version)) (
                              member (codes "capture_duration_ms") (int (pos m.capture_duration_ms))
                                (member (codes "favorite") (bool m.favorite) (
                                  member (codes "automatic") (bool m.automatic)
                                    no_members)))))))))))))))

  unfoldable pub cursor_to_json : CursorState → Value
  cursor_to_json c = object (
      member (codes "x") (int c.x) (
        member (codes "y") (int c.y) (
          member (codes "monitor_id") (string c.monitor_id)
            (put_optional (codes "focused_window_id") c.focused_window_id no_members))))

  unfoldable pub snapshot_to_json : Snapshot → Value
  snapshot_to_json s = object (
      member (codes "metadata") (metadata_to_json s.metadata) (
        member (codes "monitors") (array (items_of monitor_to_json s.monitors)) (
          member (codes "windows") (array (items_of window_to_json s.windows)) (
            member (codes "cursor") (cursor_to_json s.cursor)
              (put_optional (codes "active_workspace_id") s.active_workspace_id no_members)))))
