-- ===== src/Storage/RoundTrip/Printed.antt =====
-- The JSON of a snapshot can be printed and read back (src/storage/serialization.cpp).
use contextsnap.Base.{Bytes, List, Option, [], arith, none, some, ℕ, ◌<◌, ◌^◌, ◌∷◌}
use contextsnap.Base.Int.{int64_of_uint64, negsuc, pos, ℤ}
use contextsnap.Types.{
  CursorState, MonitorInfo, ProcessInfo, Rect, Snapshot, SnapshotMetadata, TabInfo, WindowInfo,
}
use contextsnap.Json.{DoubleText, Members, Value}
use contextsnap.Json.Digits.{IsInt64}
use contextsnap.Json.RoundTrip.Doubles.{IsReadable}
use contextsnap.Json.RoundTrip.Shape.{AllPrintable, IsPrintable, MembersPrintable}
use contextsnap.Storage.Fields.{
  items_of, put_optional, put_optional_int, rect_to_json, strings_to_json,
}
use contextsnap.Storage.ToJson.{
  cursor_to_json, metadata_to_json, monitor_to_json, process_to_json, snapshot_to_json, tab_to_json,
  window_to_json,
}
use contextsnap.Storage.RoundTrip.Parts.{IsInt32, OpenerFits, RectFits, TabFits}
use contextsnap.Storage.RoundTrip.Windows.{Every, MonitorFits, WindowFits}
use contextsnap.Storage.RoundTrip.Snapshots.{CursorFits, MetadataFits, SnapshotFits, schema_fits}

int32-IsInt64 : (z : ℤ) → IsInt32 z → IsInt64 z
int32-IsInt64 (pos n) h = omega arith
int32-IsInt64 (negsuc n) h = omega arith

uint64-IsInt64 : (n : ℕ) → IsInt64 (int64_of_uint64 n)
unfolding int64_of_uint64
uint64-IsInt64 n = ground arith

uint32-IsInt64 : (n : ℕ) → n < 2 ^ 32 → IsInt64 (pos n)
uint32-IsInt64 n h = omega arith

module _ (fp : DoubleText) where
  put_optional-IsPrintable :
      (key : Bytes) (o : Option Bytes) (ms : Members)
      → MembersPrintable fp ms
      → MembersPrintable fp (put_optional key o ms)
  unfolding put_optional IsPrintable
  put_optional-IsPrintable key none ms h = h
  put_optional-IsPrintable key (some s) ms h = (tt, h)

  put_optional_int-IsPrintable :
      (key : Bytes) (o : Option ℤ) (ms : Members)
      → OpenerFits o
      → MembersPrintable fp ms
      → MembersPrintable fp (put_optional_int key o ms)
  unfolding put_optional_int IsPrintable
  put_optional_int-IsPrintable key none ms fits h = h
  put_optional_int-IsPrintable key (some z) ms fits h = (int32-IsInt64 z fits, h)

  items_of-IsPrintable {ℓ} :
      {A : Type ℓ}
      → (g : A → Value) (P : A → Type 0) → ((a : A) → P a → IsPrintable fp (g a))
      → (as' : List A) → Every P as'
      → AllPrintable fp (items_of g as')
  unfolding items_of IsPrintable
  items_of-IsPrintable g P each [] h = tt
  items_of-IsPrintable g P each (a ∷ as') (h, hs) = (each a h, items_of-IsPrintable g P each as' hs)

  strings-IsPrintable : (ss : List Bytes) → IsPrintable fp (strings_to_json ss)
  unfolding strings_to_json items_of IsPrintable
  strings-IsPrintable [] = tt
  strings-IsPrintable (s ∷ ss) = (tt, strings-IsPrintable ss)

  rect-IsPrintable : (r : Rect) → RectFits r → IsPrintable fp (rect_to_json r)
  unfolding rect_to_json IsPrintable
  rect-IsPrintable r h = search (int32-IsInt64, h.x_fits, h.y_fits, h.width_fits, h.height_fits)

  tab-IsPrintable : (t : TabInfo) → TabFits t → IsPrintable fp (tab_to_json t)
  unfolding tab_to_json IsPrintable
  tab-IsPrintable t h =
      search
        (
          int32-IsInt64, h.index_fits, h.opener_fits, h.scroll_fits, put_optional-IsPrintable,
          put_optional_int-IsPrintable,
        )
        depth 40

  monitor-IsPrintable :
      (m : MonitorInfo) → MonitorFits (IsReadable fp) m → IsPrintable fp (monitor_to_json m)
  unfolding monitor_to_json IsPrintable
  monitor-IsPrintable m h = search (
    rect-IsPrintable, h.bounds_fit, h.work_area_fits, uint32-IsInt64, h.dpi_fits, h.scale_ok,
    h.refresh_fits, put_optional-IsPrintable,
  )

  process-IsPrintable : (p : ProcessInfo) → IsPrintable fp (process_to_json p)
  unfolding process_to_json IsPrintable
  process-IsPrintable p = search (uint64-IsInt64, strings-IsPrintable)

  window-IsPrintable :
      (w : WindowInfo) → WindowFits (IsReadable fp) w → IsPrintable fp (window_to_json w)
  unfolding window_to_json IsPrintable
  window-IsPrintable w h =
      let tabs = items_of-IsPrintable tab_to_json TabFits tab-IsPrintable w.tabs h.tabs_fit in
      search
        (
          int32-IsInt64, uint64-IsInt64, rect-IsPrintable, process-IsPrintable,
          put_optional-IsPrintable, tabs, h.frame_fits, h.client_area_fits, h.restored_fits,
          h.z_order_fits, h.opacity_ok,
        )
        depth 40

  metadata-IsPrintable :
      (format_time : ℤ → Bytes) (m : SnapshotMetadata)
      → MetadataFits m
      → IsPrintable fp (metadata_to_json format_time m)
  unfolding metadata_to_json IsPrintable
  metadata-IsPrintable format_time m h =
      let schema = schema_fits m.schema_version h.schema_known in
      search (strings-IsPrintable, uint32-IsInt64, schema, h.duration_fits)

  cursor-IsPrintable :
      (format_time : ℤ → Bytes) (c : CursorState)
      → CursorFits c
      → IsPrintable fp (cursor_to_json format_time c)
  unfolding cursor_to_json IsPrintable
  cursor-IsPrintable format_time c h =
      search (int32-IsInt64, h.x_fits, h.y_fits, put_optional-IsPrintable)

  pub snapshot-IsPrintable :
      (format_time : ℤ → Bytes) (s : Snapshot)
      → SnapshotFits (IsReadable fp) s
      → IsPrintable fp (snapshot_to_json format_time s)
  unfolding snapshot_to_json IsPrintable
  snapshot-IsPrintable format_time s h =
      let monitors =
        items_of-IsPrintable monitor_to_json (MonitorFits (IsReadable fp)) monitor-IsPrintable
          s.monitors h.monitors_fit in
      let windows =
        items_of-IsPrintable window_to_json (WindowFits (IsReadable fp)) window-IsPrintable
          s.windows h.windows_fit in
      search (
        metadata-IsPrintable, h.metadata_fits, monitors, windows, cursor-IsPrintable, h.cursor_fits,
        put_optional-IsPrintable,
      )
