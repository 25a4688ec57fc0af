-- ===== src/Storage/RoundTrip/Depth.antt =====
-- How deep the JSON of a snapshot is nested (src/storage/serialization.cpp).
use contextsnap.Base.{Bytes, List, Option, [], arith, none, refl, some, ℕ, ◌∷◌, ◌≡◌, ◌≤◌}
use contextsnap.Base.Int.{ℤ}
use contextsnap.Types.{
  CursorState, MonitorInfo, ProcessInfo, Rect, Snapshot, SnapshotMetadata, TabInfo, WindowInfo,
}
use contextsnap.Json.{Members, Value, string}
use contextsnap.Json.RoundTrip.Shape.{nest, nest_items, nest_members}
use contextsnap.Storage.Fields.{
  items_of, put_optional, put_optional_int, rect_to_json, strings_to_json,
}
use contextsnap.Storage.ToJson.{
  cursor_to_json, metadata_to_json, monitor_to_json, process_to_json, snapshot_to_json, tab_to_json,
  window_to_json,
}

nest-put_optional :
    (key : Bytes) (o : Option Bytes) (ms : Members)
    → nest_members (put_optional key o ms) ≡ nest_members ms
unfolding nest put_optional
nest-put_optional key none ms = refl
nest-put_optional key (some s) ms = ground arith

nest-put_optional_int :
    (key : Bytes) (o : Option ℤ) (ms : Members)
    → nest_members (put_optional_int key o ms) ≡ nest_members ms
unfolding nest put_optional_int
nest-put_optional_int key none ms = refl
nest-put_optional_int key (some z) ms = ground arith

ruleset optional_nests = (nest-put_optional, nest-put_optional_int)

nest-items_of {ℓ} :
    {A : Type ℓ}
    → (g : A → Value) (n : ℕ) → ((a : A) → nest (g a) ≤ n)
    → (as' : List A) → nest_items (items_of g as') ≤ n
unfolding nest items_of
nest-items_of g n h [] = omega arith
nest-items_of g n h (a ∷ as') = omega (arith, h a, nest-items_of g n h as')

pub nest-strings : (ss : List Bytes) → nest (strings_to_json ss) ≤ 1
unfolding nest strings_to_json
nest-strings ss = omega (arith, nest-items_of (λ s. string s) 0 (λ s. omega arith) ss)

nest-rect : (r : Rect) → nest (rect_to_json r) ≤ 1
unfolding nest rect_to_json
nest-rect r = omega arith

nest-tab : (t : TabInfo) → nest (tab_to_json t) ≤ 1
unfolding nest tab_to_json
nest-tab t = simp optional_nests (omega arith)

nest-monitor : (m : MonitorInfo) → nest (monitor_to_json m) ≤ 2
unfolding nest monitor_to_json
nest-monitor m = simp optional_nests (omega (arith, nest-rect m.bounds, nest-rect m.work_area))

nest-process : (p : ProcessInfo) → nest (process_to_json p) ≤ 2
unfolding nest process_to_json
nest-process p = omega (arith, nest-strings p.command_line)

nest-window : (w : WindowInfo) → nest (window_to_json w) ≤ 3
unfolding nest window_to_json
nest-window w = simp optional_nests (
    omega (
      arith,
      nest-rect w.frame,
      nest-rect w.client_area,
      nest-rect w.restored_frame,
      nest-process w.process,
      nest-items_of tab_to_json 1 nest-tab w.tabs,
    ))

module _ (format_time : ℤ → Bytes) where
  nest-metadata : (m : SnapshotMetadata) → nest (metadata_to_json format_time m) ≤ 2
  unfolding nest metadata_to_json
  nest-metadata m = omega (arith, nest-strings m.tags)

  nest-cursor : (c : CursorState) → nest (cursor_to_json format_time c) ≤ 1
  unfolding nest cursor_to_json
  nest-cursor c = simp optional_nests (omega arith)

  pub nest-snapshot : (s : Snapshot) → nest (snapshot_to_json format_time s) ≤ 5
  unfolding nest snapshot_to_json
  nest-snapshot s = simp optional_nests (
      omega (
        arith,
        nest-metadata s.metadata,
        nest-items_of monitor_to_json 2 nest-monitor s.monitors,
        nest-items_of window_to_json 3 nest-window s.windows,
        nest-cursor s.cursor,
      ))
