-- ===== src/Storage/Tests.antt =====
-- Snapshots, documents and times at concrete inputs (src/storage/serialization.cpp).
mod Library
mod Samples
use contextsnap.Storage.Tests.Library.{one_second, one_second-IsCivil, two_doubles}
use contextsnap.Storage.Tests.Samples.{
  a_snapshot, a_snapshot_fits, a_summary, first_time, print_time, read_time, second_time,
}
use contextsnap.Base.{[], arith, codes, false, refl, ◌≡◌}
use contextsnap.Base.Int.{negsuc, pos, ◌+ℤ◌}
use contextsnap.Base.Decimal.{int_string}
use contextsnap.Base.Double.{bits}
use contextsnap.Errors.{value, ◌>>=◌}
use contextsnap.Json.{bool, double, int, member, no_members, object, string}
use contextsnap.Storage.Timestamps.{format_timestamp, parse_timestamp}
use contextsnap.Storage.RoundTrip.Times.{parse_timestamp-format_timestamp}
use contextsnap.Restore.Plan.{open_tabs}
use contextsnap.Storage.Reports.{step_to_json, summary_from_json, summary_to_json}
use contextsnap.Storage.RoundTrip.Reports.{summary_from_json-parse}
use contextsnap.Json.Printer.{serialize, serialize_into}
use contextsnap.Json.Parser.{parse, parse_all, parse_value, without_bom}
use contextsnap.Storage.ToJson.{snapshot_to_json}
use contextsnap.Storage.Documents.{
  deserialize, json, json_pretty, serialize_snapshot, wrap_document,
}
use contextsnap.Storage.RoundTrip.Text.{deserialize-serialize_snapshot, deserialize-wrap_document}

format_test : format_timestamp one_second (pos 1700000000007) ≡ codes "2023-11-14T22:13:20.007Z"
unfolding format_timestamp int_string ◌+ℤ◌
format_test = refl

parse_timestamp-format_timestamp_example :
    parse_timestamp one_second (format_timestamp one_second (pos 1700000000007))
    ≡ value (pos 1700000000007)
parse_timestamp-format_timestamp_example =
    parse_timestamp-format_timestamp one_second 1700000000007 one_second-IsCivil refl

deserialize-serialize_snapshot_example :
    (serialize_snapshot two_doubles print_time a_snapshot json_pretty >>= λ text.
    deserialize two_doubles (bits 2) read_time [] text json_pretty)
    ≡ value a_snapshot
deserialize-serialize_snapshot_example =
    deserialize-serialize_snapshot two_doubles (bits 2) print_time read_time [] a_snapshot
      json_pretty (λ e. absurd (cc)) a_snapshot_fits first_time second_time

deserialize-wrap_document_example :
    deserialize two_doubles
      (bits 2)
      read_time
      []
      (wrap_document two_doubles
        (codes "now")
        (codes "ContextSnap 1.0")
        (snapshot_to_json print_time a_snapshot))
      json
    ≡ value a_snapshot
deserialize-wrap_document_example =
    deserialize-wrap_document two_doubles (bits 2) print_time read_time [] a_snapshot (codes "now")
      (codes "ContextSnap 1.0") a_snapshot_fits first_time second_time

-- The text of a whole double is read back as an integer.
whole_double_test :
    parse two_doubles (serialize two_doubles (negsuc 0) (double (bits 2))) ≡ value (int (pos 1))
unfolding parse parse_all parse_value without_bom serialize serialize_into
whole_double_test = refl

summary_from_json-parse_example :
    (parse two_doubles (serialize two_doubles (negsuc 0) (summary_to_json print_time a_summary))
      >>= λ v. value (summary_from_json two_doubles read_time v))
    ≡ value a_summary
summary_from_json-parse_example =
    summary_from_json-parse two_doubles print_time read_time (negsuc 0) a_summary
      (record { windows_fit = omega arith; tabs_fit = omega arith; monitors_fit = omega arith })
      first_time

-- An empty reason is not written.
step_test :
    step_to_json (record {
      kind = open_tabs;
      target_id = codes "w";
      description = [];
      skipped = false;
      skip_reason = [];
    })
    ≡ object (
        member (codes "kind") (int (pos 6)) (
          member (codes "target_id") (string (codes "w")) (
            member
              (codes "description")
              (string [])
              (member (codes "skipped") (bool false) no_members))))
unfolding step_to_json
step_test = refl
