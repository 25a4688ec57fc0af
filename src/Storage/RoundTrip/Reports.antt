-- ===== src/Storage/RoundTrip/Reports.antt =====
-- A client reads summaries and reports as they were (src/ipc/client.cpp).
use contextsnap.Base.{Bytes, ◌<◌, ◌^◌, ◌≡◌, List, [], arith, refl, ℕ, ◌∷◌, ◌≤◌}
use contextsnap.Base.Int.{ℤ, pos}
use contextsnap.Errors.{Result, value, value_or, ◌>>=◌}
use contextsnap.Json.{DoubleText, as_int, as_string, is_string, int}
use contextsnap.Storage.RoundTrip.Depth.{nest-strings}
use contextsnap.Storage.Reports.{
  RestoreReport, SnapshotSummary, bool_field, report_from_json, report_to_json, string_field,
  string_list, summary_from_json, summary_to_json, timestamp_field, unsigned_field,
}
use contextsnap.Storage.RoundTrip.Windows.{
  strings_from_json-strings_to_json, uint32_of_int64-eq_self,
}
use contextsnap.Json.Parser.{max_depth, parse}
use contextsnap.Json.Printer.{serialize}
use contextsnap.Json.RoundTrip.{parse-serialize}
use contextsnap.Json.RoundTrip.Shape.{IsPlain, nest}
use contextsnap.Storage.Fields.{items_of, strings_to_json}

pub record ReportFits (r : RestoreReport) : Type 0 where
  pub restored_fits : r.windows_restored < 2 ^ 32
  pub failed_fits : r.windows_failed < 2 ^ 32
  pub launched_fits : r.apps_launched < 2 ^ 32
  pub tabs_fit : r.tabs_restored < 2 ^ 32
  pub duration_fits : r.duration_ms < 2 ^ 32

pub report_from_json-report_to_json :
    (fp : DoubleText) (r : RestoreReport)
    → ReportFits r
    → report_from_json fp (report_to_json r) ≡ r
unfolding report_from_json report_to_json string_field unsigned_field string_list as_string as_int
report_from_json-report_to_json fp r h = simp (
  strings_from_json-strings_to_json,
  uint32_of_int64-eq_self r.windows_restored h.restored_fits,
  uint32_of_int64-eq_self r.windows_failed h.failed_fits,
  uint32_of_int64-eq_self r.apps_launched h.launched_fits,
  uint32_of_int64-eq_self r.tabs_restored h.tabs_fit,
  uint32_of_int64-eq_self r.duration_ms h.duration_fits,
)

pub record SummaryFits (s : SnapshotSummary) : Type 0 where
  pub windows_fit : s.window_count < 2 ^ 32
  pub tabs_fit : s.tab_count < 2 ^ 32
  pub monitors_fit : s.monitor_count < 2 ^ 32

pub summary_from_json-summary_to_json :
    (fp : DoubleText) (format_time : ℤ → Bytes) (parse_time : Bytes → Result ℤ)
    (s : SnapshotSummary)
    → SummaryFits s
    → parse_time (format_time s.created_at) ≡ value s.created_at
    → summary_from_json fp parse_time (summary_to_json format_time s) ≡ s
unfolding summary_from_json summary_to_json string_field unsigned_field string_list bool_field
    timestamp_field as_string as_int is_string value_or
summary_from_json-summary_to_json fp format_time parse_time s h created = simp (
  created,
  strings_from_json-strings_to_json,
  uint32_of_int64-eq_self s.window_count h.windows_fit,
  uint32_of_int64-eq_self s.tab_count h.tabs_fit,
  uint32_of_int64-eq_self s.monitor_count h.monitors_fit,
)

strings-IsPlain : (ss : List Bytes) → IsPlain (strings_to_json ss)
unfolding strings_to_json items_of IsPlain
strings-IsPlain [] = tt
strings-IsPlain (s ∷ ss) = (tt, strings-IsPlain ss)

count-IsPlain : (n : ℕ) → n < 2 ^ 32 → IsPlain (int (pos n))
unfolding IsPlain
count-IsPlain n h = omega arith

summary-IsPlain :
    (format_time : ℤ → Bytes) (s : SnapshotSummary)
    → SummaryFits s
    → IsPlain (summary_to_json format_time s)
unfolding summary_to_json IsPlain
summary-IsPlain format_time s h =
    let windows = count-IsPlain s.window_count h.windows_fit in
    let tabs = count-IsPlain s.tab_count h.tabs_fit in
    let monitors = count-IsPlain s.monitor_count h.monitors_fit in
    search (strings-IsPlain, windows, tabs, monitors) depth 20

nest-summary :
    (format_time : ℤ → Bytes) (s : SnapshotSummary)
    → nest (summary_to_json format_time s) ≤ max_depth
unfolding summary_to_json nest
nest-summary format_time s = omega (arith, nest-strings s.tags)

-- A client reads a snapshot's summary as it was from the text of the daemon's JSON, where the counts
-- fit their 32 bits and the time's text is read back.
pub summary_from_json-parse :
    (fp : DoubleText) (format_time : ℤ → Bytes) (parse_time : Bytes → Result ℤ) (indent : ℤ)
    (s : SnapshotSummary)
    → SummaryFits s
    → parse_time (format_time s.created_at) ≡ value s.created_at
    → (parse fp (serialize fp indent (summary_to_json format_time s)) >>= λ v.
        value (summary_from_json fp parse_time v))
      ≡ value s
summary_from_json-parse fp format_time parse_time indent s h created =
    rw
      (
        parse-serialize fp indent (summary_to_json format_time s) (summary-IsPlain format_time s h)
            (nest-summary format_time s),
        summary_from_json-summary_to_json fp format_time parse_time s h created,
      )
      refl
