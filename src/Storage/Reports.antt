-- ===== src/Storage/Reports.antt =====
-- src/storage/serialization.cpp: summaries, plans and reports as JSON, and src/ipc/client.cpp: how a
-- client reads summaries and reports.
use contextsnap.Base.{Bool, Bytes, List, [], codes, false, if◌then◌else◌, is_empty, ℕ, ◌&&◌, ◌==◌}
use contextsnap.Base.Int.{pos, ℤ}
use contextsnap.Errors.{Result, value_or}
use contextsnap.Json.{
  DoubleText, Members, Value, array, as_bool, as_int, as_string, bool, find, int, is_string, member,
  no_members, object, string,
}
use contextsnap.Ipc.Message.{or_default}
use contextsnap.Restore.Plan.{
  RestorePlan, RestoreStep, StepKind, focus_window, launch_process, move_window, open_tabs,
  raise_window, set_state, set_workspace, wait_for_window, warp_cursor,
}
use contextsnap.Storage.Fields.{items_of, strings_from_json, strings_to_json, uint32_of_int64}

pub record SnapshotSummary : Type 0 where
  pub id : Bytes
  pub name : Bytes
  pub tags : List Bytes
  pub created_at : ℤ
  pub window_count : ℕ
  pub tab_count : ℕ
  pub monitor_count : ℕ
  pub favorite : Bool
  pub automatic : Bool

pub record RestoreReport : Type 0 where
  pub snapshot_id : Bytes
  pub windows_restored : ℕ
  pub windows_failed : ℕ
  pub apps_launched : ℕ
  pub tabs_restored : ℕ
  pub duration_ms : ℕ
  pub warnings : List Bytes
  pub errors : List Bytes

unfoldable pub fully_successful : RestoreReport → Bool
fully_successful r = r.windows_failed == 0 && is_empty r.errors

-- The enumerator's value.
unfoldable pub step_number : StepKind → ℕ
step_number launch_process = 0
step_number wait_for_window = 1
step_number move_window = 2
step_number set_state = 3
step_number set_workspace = 4
step_number raise_window = 5
step_number open_tabs = 6
step_number warp_cursor = 7
step_number focus_window = 8

unfoldable pub summary_to_json : (ℤ → Bytes) → SnapshotSummary → Value
summary_to_json format_time s = object (
    member (codes "id") (string s.id) (
      member (codes "name") (string s.name) (
        member (codes "tags") (strings_to_json s.tags) (
          member (codes "created_at") (string (format_time s.created_at)) (
            member (codes "window_count") (int (pos s.window_count)) (
              member (codes "tab_count") (int (pos s.tab_count)) (
                member (codes "monitor_count") (int (pos s.monitor_count)) (
                  member (codes "favorite") (bool s.favorite)
                    (member (codes "automatic") (bool s.automatic) no_members)))))))))

abbrev reason_member : Bytes → Members
reason_member reason =
    if is_empty reason then no_members else member (codes "skip_reason") (string reason) no_members

unfoldable pub step_to_json : RestoreStep → Value
unfolding step_number
step_to_json s = object (
    member (codes "kind") (int (pos (step_number s.kind))) (
      member (codes "target_id") (string s.target_id) (
        member (codes "description") (string s.description)
          (member (codes "skipped") (bool s.skipped) (reason_member s.skip_reason)))))

unfoldable pub plan_to_json : RestorePlan → Value
plan_to_json p = object (
    member (codes "snapshot_id") (string p.snapshot_id) (
      member (codes "steps") (array (items_of step_to_json p.steps)) (
        member (codes "warnings") (strings_to_json p.warnings)
          (member (codes "estimated_duration_ms") (int (pos p.estimated_duration_ms)) no_members))))

unfoldable pub report_to_json : RestoreReport → Value
report_to_json r = object (
    member (codes "snapshot_id") (string r.snapshot_id) (
      member (codes "windows_restored") (int (pos r.windows_restored)) (
        member (codes "windows_failed") (int (pos r.windows_failed)) (
          member (codes "apps_launched") (int (pos r.apps_launched)) (
            member (codes "tabs_restored") (int (pos r.tabs_restored)) (
              member (codes "duration_ms") (int (pos r.duration_ms)) (
                member (codes "warnings") (strings_to_json r.warnings)
                  (member (codes "errors") (strings_to_json r.errors) no_members))))))))

-- The client's readers.
unfoldable pub string_list : Value → Bytes → List Bytes
unfolding find strings_from_json
string_list v key = strings_from_json (find v key)

unfoldable pub string_field : Value → Bytes → Bytes
unfolding find as_string
string_field v key = or_default (find v key) [] λ found. as_string found []

unfoldable pub bool_field : Value → Bytes → Bool
unfolding find as_bool
bool_field v key = or_default (find v key) false λ found. as_bool found false

module _ (fp : DoubleText) where
  unfoldable pub unsigned_field : Value → Bytes → ℕ
  unfolding find as_int uint32_of_int64
  unsigned_field v key =
      or_default (find v key) 0 λ found. uint32_of_int64 (as_int fp found (pos 0))

  unfoldable pub report_from_json : Value → RestoreReport
  report_from_json v = record {
    snapshot_id = string_field v (codes "snapshot_id");
    windows_restored = unsigned_field v (codes "windows_restored");
    windows_failed = unsigned_field v (codes "windows_failed");
    apps_launched = unsigned_field v (codes "apps_launched");
    tabs_restored = unsigned_field v (codes "tabs_restored");
    duration_ms = unsigned_field v (codes "duration_ms");
    warnings = string_list v (codes "warnings");
    errors = string_list v (codes "errors");
  }

  module _ (parse_time : Bytes → Result ℤ) where
    -- A time is text, or milliseconds since the epoch.
    unfoldable pub timestamp_field : Value → Bytes → ℤ
    unfolding find is_string as_string as_int value_or
    timestamp_field v key = or_default (find v key) (pos 0) λ found.
        if is_string found
        then value_or (parse_time (as_string found [])) (pos 0)
        else as_int fp found (pos 0)

    unfoldable pub summary_from_json : Value → SnapshotSummary
    summary_from_json v = record {
      id = string_field v (codes "id");
      name = string_field v (codes "name");
      tags = string_list v (codes "tags");
      created_at = timestamp_field v (codes "created_at");
      window_count = unsigned_field v (codes "window_count");
      tab_count = unsigned_field v (codes "tab_count");
      monitor_count = unsigned_field v (codes "monitor_count");
      favorite = bool_field v (codes "favorite");
      automatic = bool_field v (codes "automatic");
    }
