-- ===== src/Storage/Documents.antt =====
-- src/storage/serialization.cpp: formats, export documents, and snapshots as text. The build is the
-- one without FlatBuffers, which is the default. The clock's text and the generated version header's
-- producer are parameters.
use contextsnap.Base.{
  Bool, Bytes, Option, [], bytes_eq, codes, false, if◌then◌else◌, none, not, some, ◌++◌, ◌||◌,
}
use contextsnap.Base.Int.{ltb_ℤ, negsuc, pos, ℤ}
use contextsnap.Base.Double.{Double}
use contextsnap.Errors.{Result, error, invalid, make_error, unsupported, value, ◌>>=◌}
use contextsnap.Types.{Snapshot}
use contextsnap.Json.{
  DoubleText, Value, as_int, as_string, find, has_key, int, member, no_members, object, string,
}
use contextsnap.Json.Parser.{parse}
use contextsnap.Json.Printer.{serialize}
use contextsnap.Storage.ToJson.{snapshot_to_json}
use contextsnap.Storage.FromJson.{schema_version, snapshot_from_json}

pub data Format : Type 0 where
  json json_pretty flat_buffers : Format

unfoldable pub format_string : Format → Bytes
format_string json = codes "json"
format_string json_pretty = codes "json-pretty"
format_string flat_buffers = codes "flatbuffers"

unfoldable pub format_from_string : Bytes → Result Format
format_from_string text =
    if bytes_eq text (codes "json")
    then value json
    else if bytes_eq text (codes "json-pretty") || bytes_eq text (codes "pretty")
    then value json_pretty
    else if bytes_eq text (codes "flatbuffers")
        || bytes_eq text (codes "fb")
        || bytes_eq text (codes "binary")
    then value flat_buffers
    else error (invalid (codes "unknown format: " ++ text) (codes "storage.format"))

abbrev pub document_format : Bytes
document_format = codes "contextsnap.snapshot"

-- The envelope of an export, with the time and the producer that stand in it.
unfoldable pub envelope : Bytes → Bytes → Value → Value
envelope exported_at producer snapshot_json = object (
    member (codes "format") (string document_format) (
      member (codes "version") (int (pos schema_version)) (
        member (codes "exported_at") (string exported_at) (
          member (codes "producer") (string producer)
            (member (codes "snapshot") snapshot_json no_members)))))

module _ (fp : DoubleText) where
  unfoldable pub wrap_document : Bytes → Bytes → Value → Bytes
  wrap_document exported_at producer snapshot_json =
      serialize fp (pos 2) (envelope exported_at producer snapshot_json)

  abbrev has_format : Option Value → Bool
  has_format none = false
  has_format (some v) = bytes_eq (as_string v []) document_format

  abbrev newer_version : Option Value → Bool
  newer_version none = false
  newer_version (some v) = ltb_ℤ (pos schema_version) (as_int fp v (pos 1))

  abbrev snapshot_member : Option Value → Result Value
  snapshot_member none =
      error (invalid (codes "document has no snapshot member") (codes "storage.unwrap"))
  snapshot_member (some v) = value v

  unfoldable pub unwrap_value : Value → Result Value
  unfolding find as_string as_int
  unwrap_value document =
      if not (has_format (find document (codes "format")))
      then error (invalid (codes "not a ContextSnap snapshot document") (codes "storage.unwrap"))
      else if newer_version (find document (codes "version"))
      then error (
          make_error unsupported (codes "document version is newer than this build supports")
            (codes "storage.unwrap"))
      else snapshot_member (find document (codes "snapshot"))

  unfoldable pub unwrap_document : Bytes → Result Value
  unfolding unwrap_value
  unwrap_document text = parse fp text >>= unwrap_value

  unfoldable pub serialize_snapshot : (ℤ → Bytes) → Snapshot → Format → Result Bytes
  serialize_snapshot format_time snapshot json =
      value (serialize fp (negsuc 0) (snapshot_to_json format_time snapshot))
  serialize_snapshot format_time snapshot json_pretty =
      value (serialize fp (pos 2) (snapshot_to_json format_time snapshot))
  serialize_snapshot format_time snapshot flat_buffers = error (
      make_error unsupported (codes "this build has no FlatBuffers support")
        (codes "storage.serialize"))

  module _ (one : Double) (parse_time : Bytes → Result ℤ) (fresh_id : Bytes) where
    -- A bare snapshot and an export document are both read.
    unfoldable pub deserialize : Bytes → Format → Result Snapshot
    unfolding unwrap_document
    deserialize payload flat_buffers = error (
        make_error unsupported (codes "this build has no FlatBuffers support")
          (codes "storage.deserialize"))
    deserialize payload _ = parse fp payload >>= λ v.
        if has_key v (codes "snapshot")
        then (unwrap_document payload >>= snapshot_from_json fp one parse_time fresh_id)
        else snapshot_from_json fp one parse_time fresh_id v
