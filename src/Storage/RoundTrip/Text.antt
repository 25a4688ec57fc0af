-- ===== src/Storage/RoundTrip/Text.antt =====
-- Snapshots and export documents are read back from their texts (src/storage/serialization.cpp).
use contextsnap.Base.{Bytes, ap, arith, codes, false, refl, ◌<◌, ◌∙◌, ◌≡◌, ◌≤◌, none, true, ◌≢◌}
use contextsnap.Base.Int.{pos, ℤ, negsuc}
use contextsnap.Base.Double.{Double}
use contextsnap.Errors.{Result, value, ◌>>=◌}
use contextsnap.Types.{Snapshot}
use contextsnap.Json.{DoubleText, Value, find, has_key}
use contextsnap.Json.Parser.{parse, max_depth}
use contextsnap.Json.RoundTrip.{parse-serialize_doubles}
use contextsnap.Json.RoundTrip.Doubles.{IsReadable, as_double-number_value, number_value}
use contextsnap.Json.RoundTrip.Shape.{IsPrintable, nest}
use contextsnap.Json.RoundTrip.Reread.{map_doubles, reread}
use contextsnap.Storage.ToJson.{snapshot_to_json}
use contextsnap.Storage.FromJson.{snapshot_from_json}
use contextsnap.Storage.Documents.{
  envelope, unwrap_document, unwrap_value, wrap_document, Format, deserialize, flat_buffers, json,
  json_pretty, serialize_snapshot,
}
use contextsnap.Storage.RoundTrip.Parts.{lookups}
use contextsnap.Storage.RoundTrip.Doubles.{doubles_mapped}
use contextsnap.Storage.RoundTrip.Snapshots.{SnapshotFits, snapshot_from_json-map_doubles}
use contextsnap.Storage.RoundTrip.Depth.{nest-snapshot}
use contextsnap.Json.Printer.{serialize}
use contextsnap.Storage.RoundTrip.Printed.{snapshot-IsPrintable}

module _ (fp : DoubleText) where
  envelope-IsPrintable :
      (exported_at producer : Bytes) (v : Value)
      → IsPrintable fp v
      → IsPrintable fp (envelope exported_at producer v)
  unfolding envelope IsPrintable
  envelope-IsPrintable exported_at producer v h = (tt, (omega arith, (tt, (tt, (h, tt)))))

  reread-envelope :
      (exported_at producer : Bytes) (v : Value)
      → reread fp (envelope exported_at producer v) ≡ envelope exported_at producer (reread fp v)
  unfolding envelope map_doubles
  reread-envelope exported_at producer v = refl

  nest-envelope :
      (exported_at producer : Bytes) (v : Value)
      → nest v < max_depth
      → nest (envelope exported_at producer v) ≤ max_depth
  unfolding envelope nest
  nest-envelope exported_at producer v h = omega arith

  unwrap_value-envelope :
      (exported_at producer : Bytes) (v : Value)
      → unwrap_value fp (envelope exported_at producer v) ≡ value v
  unfolding envelope unwrap_value
  unwrap_value-envelope exported_at producer v = refl

  has_snapshot :
      (exported_at producer : Bytes) (v : Value)
      → has_key (envelope exported_at producer v) (codes "snapshot") ≡ true
  unfolding envelope has_key
  has_snapshot exported_at producer v = refl

  parse-wrap_document :
      (exported_at producer : Bytes) (v : Value)
      → IsPrintable fp v
      → nest v < max_depth
      → parse fp (wrap_document fp exported_at producer v)
        ≡ value (envelope exported_at producer (reread fp v))
  unfolding wrap_document
  parse-wrap_document exported_at producer v h deep =
      parse-serialize_doubles fp (pos 2) (envelope exported_at producer v)
        (envelope-IsPrintable exported_at producer v h) (nest-envelope exported_at producer v deep)
      ∙ ap (λ w. value w) (reread-envelope exported_at producer v)

  -- What was wrapped into an export document comes out of its text, with each double replaced by what
  -- its own text is read as.
  pub unwrap_document-wrap_document :
      (exported_at producer : Bytes) (v : Value)
      → IsPrintable fp v
      → nest v < max_depth
      → unwrap_document fp (wrap_document fp exported_at producer v) ≡ value (reread fp v)
  unfolding unwrap_document
  unwrap_document-wrap_document exported_at producer v h deep =
      rw (parse-wrap_document exported_at producer v h deep)
        (unwrap_value-envelope exported_at producer (reread fp v))

  module _ (one : Double) (format_time : ℤ → Bytes) (parse_time : Bytes → Result ℤ)
      (fresh_id : Bytes) where
    read_snapshot :
        (s : Snapshot)
        → SnapshotFits (IsReadable fp) s
        → parse_time (format_time s.metadata.created_at) ≡ value s.metadata.created_at
        → parse_time (format_time s.metadata.updated_at) ≡ value s.metadata.updated_at
        → snapshot_from_json fp one parse_time fresh_id (reread fp (snapshot_to_json format_time s))
          ≡ value s
    read_snapshot =
        snapshot_from_json-map_doubles fp one format_time parse_time fresh_id (IsReadable fp)
          (number_value fp) (as_double-number_value fp)

    find_snapshot_member :
        (s : Snapshot) → find (reread fp (snapshot_to_json format_time s)) (codes "snapshot") ≡ none
    unfolding snapshot_to_json map_doubles find
    find_snapshot_member s = simp (doubles_mapped, lookups)

    no_snapshot_member :
        (s : Snapshot)
        → has_key (reread fp (snapshot_to_json format_time s)) (codes "snapshot") ≡ false
    unfolding has_key
    no_snapshot_member s = rw (has_key, find_snapshot_member s) refl

    deserialize_text :
        (s : Snapshot) (indent : ℤ)
        → SnapshotFits (IsReadable fp) s
        → parse_time (format_time s.metadata.created_at) ≡ value s.metadata.created_at
        → parse_time (format_time s.metadata.updated_at) ≡ value s.metadata.updated_at
        → deserialize fp one parse_time fresh_id
            (serialize fp indent (snapshot_to_json format_time s))
            json
          ≡ value s
    unfolding deserialize
    deserialize_text s indent h created updated =
        rw
          (
            parse-serialize_doubles fp indent (snapshot_to_json format_time s)
                (snapshot-IsPrintable fp format_time s h)
                (omega (arith, nest-snapshot format_time s)),
            no_snapshot_member s,
          )
          (read_snapshot s h created updated)

    -- The two JSON formats are read alike.
    deserialize_pretty :
        (text : Bytes)
        → deserialize fp one parse_time fresh_id text json_pretty
          ≡ deserialize fp one parse_time fresh_id text json
    unfolding deserialize
    deserialize_pretty text = refl

    -- A snapshot whose id is a ULID, whose schema this build reads, whose numbers fit their C++ types,
    -- whose optional texts are not empty, whose work areas and restored frames are not empty, and whose
    -- doubles and times the C library reads back, is read back as it was from the text that serialize
    -- makes of it, in either JSON format.
    pub deserialize-serialize_snapshot :
        (s : Snapshot) (f : Format)
        → f ≢ flat_buffers
        → SnapshotFits (IsReadable fp) s
        → parse_time (format_time s.metadata.created_at) ≡ value s.metadata.created_at
        → parse_time (format_time s.metadata.updated_at) ≡ value s.metadata.updated_at
        → (serialize_snapshot fp format_time s f >>= λ text.
            deserialize fp one parse_time fresh_id text f)
          ≡ value s
    unfolding serialize_snapshot
    deserialize-serialize_snapshot s json is_text h created updated =
        deserialize_text s (negsuc 0) h created updated
    deserialize-serialize_snapshot s json_pretty is_text h created updated =
        deserialize_pretty (serialize fp (pos 2) (snapshot_to_json format_time s))
        ∙ deserialize_text s (pos 2) h created updated
    deserialize-serialize_snapshot s flat_buffers is_text h created updated = absurd (is_text refl)

    -- Such a snapshot is also read back from an export document, whatever time and producer are written
    -- into it.
    pub deserialize-wrap_document :
        (s : Snapshot) (exported_at producer : Bytes)
        → SnapshotFits (IsReadable fp) s
        → parse_time (format_time s.metadata.created_at) ≡ value s.metadata.created_at
        → parse_time (format_time s.metadata.updated_at) ≡ value s.metadata.updated_at
        → deserialize fp one parse_time fresh_id
            (wrap_document fp exported_at producer (snapshot_to_json format_time s))
            json
          ≡ value s
    unfolding deserialize
    deserialize-wrap_document s exported_at producer h created updated =
        let v = snapshot_to_json format_time s in
        let printable = snapshot-IsPrintable fp format_time s h in
        let deep : nest v < max_depth = omega (arith, nest-snapshot format_time s) in
        rw
          (
            parse-wrap_document exported_at producer v printable deep,
            has_snapshot exported_at producer (reread fp v),
            unwrap_value-envelope exported_at producer (reread fp v),
          )
          (read_snapshot s h created updated)
