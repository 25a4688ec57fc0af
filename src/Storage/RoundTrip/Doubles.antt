-- ===== src/Storage/RoundTrip/Doubles.antt =====
-- What replacing the doubles of a value does to printed snapshots (src/storage/serialization.cpp).
use contextsnap.Base.{Bytes, List, Option, [], ap, none, refl, some, ◌∷◌, ◌≡◌}
use contextsnap.Base.Int.{ℤ}
use contextsnap.Base.Double.{Double}
use contextsnap.Types.{CursorState, ProcessInfo, Rect, SnapshotMetadata, TabInfo}
use contextsnap.Json.{Members, Value, array, item, string}
use contextsnap.Json.RoundTrip.Reread.{map_doubles, map_items, map_members}
use contextsnap.Storage.Fields.{
  items_of, put_optional, put_optional_int, rect_to_json, strings_to_json,
}
use contextsnap.Storage.ToJson.{cursor_to_json, metadata_to_json, process_to_json, tab_to_json}

module _ (f : Double → Value) where
  pub map_members-put_optional :
      (key : Bytes) (o : Option Bytes) (ms : Members)
      → map_members f (put_optional key o ms) ≡ put_optional key o (map_members f ms)
  unfolding map_doubles put_optional
  map_members-put_optional key none ms = refl
  map_members-put_optional key (some s) ms = refl

  pub map_members-put_optional_int :
      (key : Bytes) (o : Option ℤ) (ms : Members)
      → map_members f (put_optional_int key o ms) ≡ put_optional_int key o (map_members f ms)
  unfolding map_doubles put_optional_int
  map_members-put_optional_int key none ms = refl
  map_members-put_optional_int key (some z) ms = refl

  pub map_items-items_of {ℓ} :
      {A : Type ℓ}
      → (g : A → Value) (as' : List A)
      → map_items f (items_of g as') ≡ items_of (λ a. map_doubles f (g a)) as'
  unfolding map_doubles items_of
  map_items-items_of g [] = refl
  map_items-items_of g (a ∷ as') = ap (λ l. item (map_doubles f (g a)) l) (map_items-items_of g as')

  pub map_items-strings :
      (ss : List Bytes) → map_items f (items_of (λ s. string s) ss) ≡ items_of (λ s. string s) ss
  unfolding map_doubles items_of
  map_items-strings [] = refl
  map_items-strings (s ∷ ss) = ap (λ l. item (string s) l) (map_items-strings ss)

  pub map_doubles-strings :
      (ss : List Bytes) → map_doubles f (strings_to_json ss) ≡ strings_to_json ss
  unfolding map_doubles strings_to_json
  map_doubles-strings ss = ap (λ l. array l) (map_items-strings ss)

  pub map_doubles-rect : (r : Rect) → map_doubles f (rect_to_json r) ≡ rect_to_json r
  unfolding map_doubles rect_to_json
  map_doubles-rect r = refl

  pub map_doubles-tab : (t : TabInfo) → map_doubles f (tab_to_json t) ≡ tab_to_json t
  unfolding map_doubles tab_to_json
  map_doubles-tab t = simp (map_members-put_optional, map_members-put_optional_int)

  pub map_doubles-process :
      (p : ProcessInfo) → map_doubles f (process_to_json p) ≡ process_to_json p
  unfolding map_doubles process_to_json
  map_doubles-process p = rw (map_doubles-strings p.command_line) refl

  pub map_doubles-cursor :
      (format_time : ℤ → Bytes) (c : CursorState)
      → map_doubles f (cursor_to_json format_time c) ≡ cursor_to_json format_time c
  unfolding map_doubles cursor_to_json
  map_doubles-cursor format_time c = simp (map_members-put_optional)

  pub map_doubles-metadata :
      (format_time : ℤ → Bytes) (m : SnapshotMetadata)
      → map_doubles f (metadata_to_json format_time m) ≡ metadata_to_json format_time m
  unfolding map_doubles metadata_to_json
  map_doubles-metadata format_time m = rw (map_doubles-strings m.tags) refl

  pub map_items-tabs :
      (tabs : List TabInfo) → map_items f (items_of tab_to_json tabs) ≡ items_of tab_to_json tabs
  unfolding map_doubles items_of
  map_items-tabs [] = refl
  map_items-tabs (t ∷ ts) = rw (map_doubles-tab t, map_items-tabs ts) refl

pub ruleset doubles_mapped = (
  map_members-put_optional, map_members-put_optional_int, map_items-items_of, map_doubles-strings,
  map_doubles-rect, map_doubles-tab, map_doubles-process, map_doubles-cursor, map_doubles-metadata,
)
